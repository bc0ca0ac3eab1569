-- ===== src/Session/Recv/Uniform.antt =====
-- What a round does to the session does not depend on the bytes behind its frame, which it hands
-- on untouched.
use server_anytls.Prelude.{
  ℕ, ◌≡◌, refl, Bool, true, false, [], Option, none, some, Bytes, if◌then◌else◌, equal, not, ◌&&◌,
  leb, nat_eq,
}
use server_anytls.Env.{Env}
use server_anytls.Number.{ℤ, pos, negsuc, parse_int}
use server_anytls.Padding.{PaddingFactory, text_or_empty}
use server_anytls.Pipe.{
  Pipe, write, WriteOutcome, completed, write_failed, write_waits, out_of_rounds,
}
use server_anytls.StringMap.{StringMap, string_map_from_bytes}
use server_anytls.Session.State.{Session, Stream, WriteResult, wrote, failed, panicked, get_elem?}
use server_anytls.Session.Calls.{key_v, key_padding_md5}
use server_anytls.Session.Recv.{
  Receiver, Recv, goes_on, stops, stalls, panics, after_frame, ignore_error, delivered, deliver_to,
  deliver, on_syn, refuse_stream, answer_version, answer_settings, on_settings, on_server_settings,
  on_update_padding_scheme, refuse_syn, accept_syn,
}

-- The same outcome with other bytes behind it.
abbrev pub with_rest : Recv → Bytes → Recv
with_rest (goes_on v _) rest = goes_on v rest
with_rest (stops v e) rest = stops v e
with_rest (stalls v r left _) rest = stalls v r left rest
with_rest (panics v) rest = panics v

abbrev pub IsUniform : (Bytes → Recv) → Type 0
IsUniform h = (rest : Bytes) → h rest ≡ with_rest (h []) rest

pub if-IsUniform :
    (b : Bool) (h k : Bytes → Recv)
    → (b ≡ true → IsUniform h)
    → (b ≡ false → IsUniform k)
    → IsUniform (λ rest. if b then h rest else k rest)
if-IsUniform true h k f g = f refl
if-IsUniform false h k f g = g refl

pub after_frame-IsUniform :
    (v : Receiver) (r : Session × WriteResult) (k : Receiver → Bytes → Recv)
    → ((w : Receiver) → IsUniform (k w))
    → IsUniform (λ rest. after_frame v r (λ w. k w rest))
after_frame-IsUniform v (s, wrote n) k h = h _
after_frame-IsUniform v (s, failed e) k h = λ rest. refl
after_frame-IsUniform v (s, panicked) k h = λ rest. refl

ignore_error-IsUniform :
    (v : Receiver) (r : Session × WriteResult) (k : Receiver → Bytes → Recv)
    → ((w : Receiver) → IsUniform (k w))
    → IsUniform (λ rest. ignore_error v r (λ w. k w rest))
ignore_error-IsUniform v (s, wrote n) k h = h _
ignore_error-IsUniform v (s, failed e) k h = h _
ignore_error-IsUniform v (s, panicked) k h = λ rest. refl

delivered-IsUniform :
    (v : Receiver) (r : ℕ) (st : Stream) (o : Pipe × ℕ × WriteOutcome)
    → IsUniform (λ rest. delivered v r st rest o)
delivered-IsUniform v r st (p, n, completed) = λ rest. refl
delivered-IsUniform v r st (p, n, write_failed e) = λ rest. refl
delivered-IsUniform v r st (p, n, write_waits left) = λ rest. refl
delivered-IsUniform v r st (p, n, out_of_rounds) = λ rest. refl

deliver_to-IsUniform :
    (v : Receiver) (r : ℕ) (o : Option Stream) (b : Bytes) → IsUniform (deliver_to v r o b)
deliver_to-IsUniform v r none b = λ rest. refl
deliver_to-IsUniform v r (some st) b = delivered-IsUniform v r st (write false st.pipe b)

pub deliver-IsUniform : (v : Receiver) (o : Option ℕ) (b : Bytes) → IsUniform (deliver v o b)
deliver-IsUniform v none b = λ rest. refl
deliver-IsUniform v (some r) b = deliver_to-IsUniform v r (get_elem? v.session.heap r) b

pub on_syn-IsUniform : (env : Env) (v : Receiver) (sid : ℕ) → IsUniform (on_syn env v sid)
unfolding on_syn
on_syn-IsUniform env v sid =
    if-IsUniform (not v.session.is_client && not v.received_settings)
      (λ rest. ignore_error v (refuse_syn env v) (λ w. stops w none))
      (λ rest. goes_on (accept_syn v sid) rest)
      (λ _. ignore_error-IsUniform v (refuse_syn env v) (λ w _. stops w none) (λ w rest. refl))
      (λ _ rest. refl)

pub refuse_stream-IsUniform :
    (env : Env) (v : Receiver) (o : Option ℕ) (b : Bytes) → IsUniform (refuse_stream env v o b)
refuse_stream-IsUniform env v none b = λ rest. refl
refuse_stream-IsUniform env v (some r) b =
    ignore_error-IsUniform v _ (λ w rest. goes_on w rest) (λ w rest. refl)

answer_version-IsUniform :
    (env : Env) (v : Receiver) (o : Option ℤ) → IsUniform (answer_version env v o)
answer_version-IsUniform env v none = λ rest. refl
answer_version-IsUniform env v (some (negsuc n)) = λ rest. refl
answer_version-IsUniform env v (some (pos n)) =
    if-IsUniform (leb 2 n) _ _
      (λ _. after_frame-IsUniform v _ (λ w rest. goes_on w rest) (λ w rest. refl)) (λ _ rest. refl)

answer_settings-IsUniform :
    (env : Env) (v : Receiver) (m : StringMap) (p : Option PaddingFactory)
    → IsUniform (answer_settings env v m p)
answer_settings-IsUniform env v m none = λ rest. refl
answer_settings-IsUniform env v m (some p) =
    if-IsUniform (equal (text_or_empty key_padding_md5 m) p.md5) _ _
      (λ _. answer_version-IsUniform env v (parse_int (text_or_empty key_v m)))
      (λ _.
        after_frame-IsUniform v _ (λ w. answer_version env w (parse_int (text_or_empty key_v m)))
          (λ w. answer_version-IsUniform env w (parse_int (text_or_empty key_v m))))

pub on_settings-IsUniform : (env : Env) (v : Receiver) (b : Bytes) → IsUniform (on_settings env v b)
unfolding on_settings
on_settings-IsUniform env v b =
    if-IsUniform v.session.is_client _ _ (λ _ rest. refl)
      (λ _.
        answer_settings-IsUniform env (record v { received_settings = true })
          (string_map_from_bytes b) v.session.padding)

pub on_server_settings-IsUniform : (v : Receiver) (b : Bytes) → IsUniform (on_server_settings v b)
unfolding on_server_settings
on_server_settings-IsUniform v b =
    if-IsUniform v.session.is_client _ _ (λ _ rest. refl) (λ _ rest. refl)

pub on_update_padding_scheme-IsUniform :
    (env : Env) (v : Receiver) (b : Bytes) → IsUniform (on_update_padding_scheme env v b)
unfolding on_update_padding_scheme
on_update_padding_scheme-IsUniform env v b =
    if-IsUniform (v.session.is_client && not env.client_debug_padding_scheme) _ _ (λ _ rest. refl)
      (λ _ rest. refl)
