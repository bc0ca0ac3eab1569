-- ===== src/Session/Recv/Frames.antt =====
-- The receive loop reads back the frames that the sender lays out.
use server_anytls.Prelude.{
  ℕ, ◌<◌, ◌^◌, ◌≡◌, refl, ap, ◌∙◌, Bool, true, false, ◌||◌, [], ◌∷◌, ◌++◌, Bytes, length, ltb, leb,
  ◌==◌, if◌then◌else◌, arith, ok, length-append, take-append, drop-append, append_assoc, nat_eq,
}
use server_anytls.Env.{Env}
use server_anytls.Wire.{
  Frame, frame_bytes, header, header_cmd, header_stream_id, header_length, cmd_waste, cmd_syn,
  cmd_psh, cmd_fin, cmd_settings, cmd_alert, cmd_update_padding_scheme, cmd_syn_ack,
  cmd_heart_request, cmd_server_settings,
}
use server_anytls.Wire.Header.{header_cmd-header, header_stream_id-header, header_length-header}
use server_anytls.Session.Recv.{
  Receiver, Recv, goes_on, read_full, payload_or_skip, dispatch, recv_step, dispatch_header,
}
use server_anytls.Session.Recv.Uniform.{
  with_rest, IsUniform, deliver-IsUniform, on_syn-IsUniform, refuse_stream-IsUniform,
  on_settings-IsUniform, on_server_settings-IsUniform, on_update_padding_scheme-IsUniform,
  after_frame-IsUniform,
}

-- The commands whose payload the loop reads; it takes the others for bare headers.
abbrev pub reads_payload : ℕ → Bool
reads_payload cmd =
    cmd == cmd_psh
    || cmd == cmd_syn_ack
    || cmd == cmd_waste
    || cmd == cmd_settings
    || cmd == cmd_alert
    || cmd == cmd_update_padding_scheme
    || cmd == cmd_server_settings

-- A frame that fits the header's fields, with a payload only where one is read.
pub record IsWhole (f : Frame) : Type 0 where
  pub sid_fits : f.sid < 2 ^ 32
  pub length_fits : length f.payload < 2 ^ 16
  pub bare : reads_payload f.cmd ≡ false → f.payload ≡ []

pub read_full-append : (b x : Bytes) → read_full (length b) (b ++ x) ≡ ok (b, x)
unfolding read_full
read_full-append b x = rw (fits, take-append b x, drop-append b x)
  where
    fits : leb (length b) (length (b ++ x)) ≡ true
    fits = ground (arith, length-append b x)

-- What the loop does with a frame, and the bytes behind it.
abbrev pub act : Env → Receiver → Frame → Bytes → Recv
act env v f x = dispatch env v f.cmd f.sid (length f.payload) (f.payload ++ x)

if_rest :
    (b : Bool) (x : Bytes) {h k : Recv} (h' k' : Recv)
    → (b ≡ true → h ≡ with_rest h' x)
    → (b ≡ false → k ≡ with_rest k' x)
    → (if b then h else k) ≡ with_rest (if b then h' else k') x
if_rest true x h' k' f g = f refl
if_rest false x h' k' f g = g refl

pub payload_or_skip-append :
    (v : Receiver) (b x : Bytes) (k : Bytes → Bytes → Recv)
    → payload_or_skip v (length b) (b ++ x) k ≡ (if ltb 0 (length b) then k b x else goes_on v x)
unfolding payload_or_skip
payload_or_skip-append v [] x k = refl
payload_or_skip-append v (c ∷ b) x k = rw (read_full-append (c ∷ b) x) (ground arith)

payload_or_skip-rest :
    (v : Receiver) (b x : Bytes) (k : Bytes → Bytes → Recv)
    → IsUniform (k b)
    → payload_or_skip v (length b) (b ++ x) k
      ≡ with_rest (payload_or_skip v (length b) (b ++ []) k) x
payload_or_skip-rest v b x k h =
    rw (payload_or_skip-append v b x k, payload_or_skip-append v b [] k)
      (if_rest (ltb 0 (length b)) x _ _ (λ _. h x) (λ _. refl))

bare_rest :
    (b x : Bytes) (h : Bytes → Recv) → b ≡ [] → IsUniform h → h (b ++ x) ≡ with_rest (h (b ++ [])) x
bare_rest [] x h e u = u x
bare_rest (c ∷ b) x h e u = cc

-- The bytes behind a whole frame are handed on untouched, and change nothing.
pub act-rest :
    (env : Env) (v : Receiver) (f : Frame) (x : Bytes)
    → (reads_payload f.cmd ≡ false → f.payload ≡ [])
    → act env v f x ≡ with_rest (act env v f []) x
unfolding dispatch
act-rest env v f x bare =
    if_rest (f.cmd == cmd_psh) x _ _ (λ _. payload _ _ (deliver-IsUniform v _ f.payload))
      λ psh.
        if_rest (f.cmd == cmd_syn) x _ _ (λ e. skip _ (on_syn-IsUniform env v f.sid) (ground arith))
          λ syn.
            if_rest (f.cmd == cmd_syn_ack) x _ _
              (λ _. payload _ _ (refuse_stream-IsUniform env _ _ f.payload))
              λ ack.
                if_rest (f.cmd == cmd_fin) x _ _ (λ e. go_on _ (ground arith))
                  λ fin.
                    if_rest (f.cmd == cmd_waste) x _ _ (λ _. payload _ _ (λ y. refl))
                      λ waste.
                        if_rest (f.cmd == cmd_settings) x _ _
                          (λ _. payload _ _ (on_settings-IsUniform env v f.payload))
                          λ settings.
                            if_rest (f.cmd == cmd_alert) x _ _ (λ _. payload _ _ (λ y. refl))
                              λ alert.
                                if_rest (f.cmd == cmd_update_padding_scheme) x _ _
                                  (λ _.
                                    payload _ _
                                      (on_update_padding_scheme-IsUniform env v f.payload))
                                  λ update.
                                    if_rest (f.cmd == cmd_heart_request) x _ _
                                      (λ e.
                                        skip _
                                          (after_frame-IsUniform v _ (λ w y. goes_on w y)
                                            (λ w y. refl))
                                          (ground arith))
                                      λ heart.
                                        if_rest (f.cmd == cmd_server_settings) x _ _
                                          (λ _.
                                            payload _ _ (on_server_settings-IsUniform v f.payload))
                                          λ e. go_on _ (ground arith)
  where
    payload :
        (w : Receiver) (k : Bytes → Bytes → Recv)
        → IsUniform (k f.payload)
        → payload_or_skip w (length f.payload) (f.payload ++ x) k
          ≡ with_rest (payload_or_skip w (length f.payload) (f.payload ++ []) k) x
    payload w k h = payload_or_skip-rest w f.payload x k h

    skip :
        (h : Bytes → Recv)
        → IsUniform h
        → reads_payload f.cmd ≡ false
        → h (f.payload ++ x) ≡ with_rest (h (f.payload ++ [])) x
    skip h u e = bare_rest f.payload x h (bare e) u

    go_on : (w : Receiver) → reads_payload f.cmd ≡ false → goes_on w (f.payload ++ x) ≡ goes_on w x
    go_on w = skip (goes_on w) (λ y. refl)

-- One round of the receive loop on the bytes of a frame, with anything behind them, acts on that
-- frame's command, stream id and payload, if the id and the length fit the header's fields and only
-- a command whose payload is read carries one.
pub recv_step-frame_bytes :
    (env : Env) (v : Receiver) (f : Frame) (x : Bytes)
    → IsWhole f
    → recv_step env v (frame_bytes f ++ x) ≡ act env v f x
unfolding recv_step frame_bytes
recv_step-frame_bytes env v f x w =
    rw (append_assoc (header f.cmd f.sid (length f.payload)) f.payload x) (
      ap (dispatch_header env v)
        (read_full-append (header f.cmd f.sid (length f.payload)) (f.payload ++ x))
      ∙ fields)
  where
    h : Bytes
    h = header f.cmd f.sid (length f.payload)

    fields :
        dispatch env v (header_cmd h) (header_stream_id h) (header_length h) (f.payload ++ x)
        ≡ act env v f x
    fields = rw (
      header_cmd-header f.cmd f.sid (length f.payload),
      header_stream_id-header f.cmd f.sid (length f.payload) w.sid_fits,
      header_length-header f.cmd f.sid (length f.payload) w.length_fits,
    )

-- A waste frame is read and forgotten.
pub act-waste :
    (env : Env) (v : Receiver) (sid : ℕ) (b x : Bytes)
    → act env v (record { cmd = cmd_waste; sid = sid; payload = b }) x ≡ goes_on v x
unfolding dispatch
act-waste env v sid b x = payload_or_skip-append v b x (λ _ rest. goes_on v rest) ∙ ground arith
