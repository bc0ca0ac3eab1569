-- ===== src/Outbound/Direct.antt =====
-- utils.go: which settings of a direct outbound are taken, and what a judgement on settings is.
use server_anytls.Prelude.{
  ℕ, ◌≡◌, refl, sym, ◌∙◌, ◌≢◌, ◌⊎◌, inl, inr, Bool, true, false, ◌&&◌, ◌||◌, List, [], ◌∷◌, Option,
  none, some, Bytes, codes, equal, equal_iff, Error, Result, ok, err, if_elim, arith, All,
}
use mathlib.Core.Bool.{false≢true}
use server_anytls.Outbound.{
  ServerConfigOutboundDirect, ServerConfigOutboundEntry, DirectMode, Engine, to_lower, non_empty,
  is_nil, direct_mode, bind_ip, bind_to_ips, direct_with, server_config_outbound_direct_to_outbound,
}

abbrev pub IsAmong : Bytes → List Bytes → Type 0
IsAmong w [] = ⊥
IsAmong w (v ∷ vs) = (w ≡ v) ⊎ IsAmong w vs

abbrev pub modes : List Bytes
modes = [] ∷ codes "auto" ∷ codes "64" ∷ codes "46" ∷ codes "6" ∷ codes "4" ∷ []

-- A known mode, an address or a device but not both, and addresses that parse.
abbrev pub IsValidDirect : Engine → ServerConfigOutboundDirect → Type 0
IsValidDirect E c =
    IsAmong (to_lower c.mode) modes
    × ((c.bind_device ≡ []) ⊎ ((c.bind_ipv4 ≡ []) × (c.bind_ipv6 ≡ [])))
    × ((c.bind_ipv4 ≡ []) ⊎ (E.parse_ip c.bind_ipv4 ≢ none))
    × ((c.bind_ipv6 ≡ []) ⊎ (E.parse_ip c.bind_ipv6 ≢ none))

-- A known type whose own settings are right; the settings of other types are not read.
abbrev pub IsValidKind : Engine → ServerConfigOutboundEntry → Bytes → Type 0
IsValidKind E entry kind =
    ((kind ≡ codes "direct") × IsValidDirect E entry.direct)
    ⊎ (((kind ≡ codes "socks5") × (entry.socks5.addr ≢ []))
        ⊎ ((kind ≡ codes "http") × (entry.http.url ≢ [])))

abbrev pub IsValid : Engine → ServerConfigOutboundEntry → Type 0
IsValid E entry = (entry.name ≢ []) × IsValidKind E entry (to_lower entry.outbound_type)

-- An error of acl-engine.
abbrev pub EngineFails : Engine → Error → Type 0
EngineFails E e =
    ((mode : DirectMode) × (ip4 : Option ℕ) × (ip6 : Option ℕ) × (E.new_direct_bind_to_ips mode ip4
          ip6
        ≡ err e))
    ⊎ (((mode : DirectMode) × (device : Bytes) × (E.new_direct_bind_to_device mode device ≡ err e))
        ⊎ ((url : Bytes) × (insecure : Bool) × (E.new_http url insecure ≡ err e)))

-- A result that is a value only if `P`, and an error only if not, or for acl-engine.
abbrev pub Judges {ℓ} : {A : Type ℓ} → Engine → Type 0 → Result A → Type 0
Judges E P (ok a) = P
Judges E P (err e) = (¬ P) ⊎ EngineFails E e

pub differs : (v w : Bytes) → equal v w ≡ false → v ≢ w
differs v w e h = false≢true (sym e ∙ (equal_iff v w).1 h)

non_empty_nil : (b : Bytes) → non_empty b ≡ false → b ≡ []
non_empty_nil [] h = refl
non_empty_nil (x ∷ b) h = absurd (false≢true (sym h))

non_empty_cons : (b : Bytes) → non_empty b ≡ true → b ≢ []
non_empty_cons [] h e = absurd (false≢true h)
non_empty_cons (x ∷ b) h e = cc

is_nil-none : (o : Option ℕ) → is_nil o ≡ true → o ≡ none
is_nil-none none h = refl
is_nil-none (some ip) h = absurd (false≢true h)

is_nil_some : (o : Option ℕ) → is_nil o ≡ false → o ≢ none
is_nil_some none h e = absurd (false≢true (sym h))
is_nil_some (some ip) h e = cc

abbrev ModeJudged : Bytes → Option DirectMode → Type 0
ModeJudged mode none = ¬ IsAmong mode modes
ModeJudged mode (some m) = IsAmong mode modes

none-IsAmong : (w : Bytes) (vs : List Bytes) → All (λ v. equal w v ≡ false) vs → ¬ IsAmong w vs
none-IsAmong w [] e h = h
none-IsAmong w (v ∷ vs) e (inl h) = differs w v e.0 h
none-IsAmong w (v ∷ vs) e (inr h) = none-IsAmong w vs e.1 h

or_false : (a b : Bool) → (a || b) ≡ false → (a ≡ false) × (b ≡ false)
or_false a b h = ground arith

or_true : (a b : Bool) → (a || b) ≡ true → (a ≡ true) ⊎ (b ≡ true)
or_true true b h = inl refl
or_true false b h = inr h

and_false : (a b : Bool) → (a && b) ≡ false → (a ≡ false) ⊎ (b ≡ false)
and_false true b h = inr h
and_false false b h = inl refl

and_true : (a b : Bool) → (a && b) ≡ true → (a ≡ true) × (b ≡ true)
and_true a b h = ground arith

default_mode :
    (mode : Bytes)
    → (equal mode [] ≡ true) ⊎ (equal mode (codes "auto") ≡ true)
    → IsAmong mode modes
default_mode mode (inl h) = inl ((equal_iff mode []).0 h)
default_mode mode (inr h) = inr (inl ((equal_iff mode (codes "auto")).0 h))

direct_mode_judged : (mode : Bytes) → ModeJudged mode (direct_mode mode)
unfolding direct_mode
direct_mode_judged mode =
    let J = ModeJudged mode in
    if_elim J (equal mode [] || equal mode (codes "auto")) (λ e. default_mode mode (or_true _ _ e))
      (λ e.
        let d = or_false (equal mode []) (equal mode (codes "auto")) e in
        if_elim J (equal mode (codes "64")) (λ f. inr (inr (inl ((equal_iff mode _).0 f))))
          (λ e64.
            if_elim J (equal mode (codes "46"))
              (λ f. inr (inr (inr (inl ((equal_iff mode _).0 f)))))
              (λ e46.
                if_elim J (equal mode (codes "6"))
                  (λ f. inr (inr (inr (inr (inl ((equal_iff mode _).0 f))))))
                  (λ e6.
                    if_elim J (equal mode (codes "4"))
                      (λ f. inr (inr (inr (inr (inr (inl ((equal_iff mode _).0 f)))))))
                      (λ e4. none-IsAmong mode modes (d.0, (d.1, (e64, (e46, (e6, (e4, tt)))))))))))

module _ (E : Engine) where
  -- A call of acl-engine for valid settings.
  pub engine-Judges :
      (P : Type 0) (r : Result ℕ) → P → ((e : Error) → r ≡ err e → EngineFails E e) → Judges E P r
  engine-Judges P (ok a) p f = p
  engine-Judges P (err e) p f = inr (f e refl)

  -- A bound address that is not empty and does not parse.
  bad_ip :
      (b : Bytes)
      → non_empty b ≡ true
      → is_nil (E.parse_ip b) ≡ true
      → ¬ ((b ≡ []) ⊎ (E.parse_ip b ≢ none))
  bad_ip b n i (inl h) = non_empty_cons b n h
  bad_ip b n i (inr h) = h (is_nil-none (E.parse_ip b) i)

  good_ip :
      (b : Bytes)
      → (non_empty b ≡ false) ⊎ (is_nil (E.parse_ip b) ≡ false)
      → (b ≡ []) ⊎ (E.parse_ip b ≢ none)
  good_ip b (inl h) = inl (non_empty_nil b h)
  good_ip b (inr h) = inr (is_nil_some (E.parse_ip b) h)

  bind_to_ips-Judges :
      (c : ServerConfigOutboundDirect) (mode : DirectMode)
      → IsAmong (to_lower c.mode) modes
      → c.bind_device ≡ []
      → Judges E
          (IsValidDirect E c)
          (bind_to_ips E mode c (E.parse_ip c.bind_ipv4) (E.parse_ip c.bind_ipv6))
  bind_to_ips-Judges c mode known device =
      let J = Judges {A = ℕ} E (IsValidDirect E c) in
      if_elim J (non_empty c.bind_ipv4 && is_nil (E.parse_ip c.bind_ipv4))
        (λ e. let d = and_true _ _ e in inl (λ v. bad_ip c.bind_ipv4 d.0 d.1 v.2))
        (λ e4.
          if_elim J (non_empty c.bind_ipv6 && is_nil (E.parse_ip c.bind_ipv6))
            (λ e. let d = and_true _ _ e in inl (λ v. bad_ip c.bind_ipv6 d.0 d.1 v.3))
            (λ e6.
              engine-Judges (IsValidDirect E c) _
                (
                  known,
                  inl device,
                  good_ip c.bind_ipv4 (and_false _ _ e4),
                  good_ip c.bind_ipv6 (and_false _ _ e6),
                )
                (λ e f. inl (mode, E.parse_ip c.bind_ipv4, E.parse_ip c.bind_ipv6, f))))

  both_bound :
      (c : ServerConfigOutboundDirect)
      → bind_ip c ≡ true
      → non_empty c.bind_device ≡ true
      → ¬ ((c.bind_device ≡ []) ⊎ ((c.bind_ipv4 ≡ []) × (c.bind_ipv6 ≡ [])))
  both_bound c i d (inl h) = non_empty_cons c.bind_device d h
  both_bound c i d (inr (h4, h6)) = elim (or_true _ _ i) [
    | inl e ↦ non_empty_cons c.bind_ipv4 e h4
    | inr e ↦ non_empty_cons c.bind_ipv6 e h6
  ]

  no_ip :
      (c : ServerConfigOutboundDirect)
      → IsAmong (to_lower c.mode) modes
      → bind_ip c ≡ false
      → IsValidDirect E c
  no_ip c known e =
      let d = or_false (non_empty c.bind_ipv4) (non_empty c.bind_ipv6) e in
      let e4 = non_empty_nil c.bind_ipv4 d.0 in
      let e6 = non_empty_nil c.bind_ipv6 d.1 in (known, inr (e4, e6), inl e4, inl e6)

  direct_with-Judges :
      (c : ServerConfigOutboundDirect) (o : Option DirectMode)
      → ModeJudged (to_lower c.mode) o
      → Judges E (IsValidDirect E c) (direct_with E c o)
  direct_with-Judges c none h = inl (λ v. h v.0)
  direct_with-Judges c (some mode) h =
      let J = Judges {A = ℕ} E (IsValidDirect E c) in
      if_elim J (bind_ip c && non_empty c.bind_device)
        (λ e.
          let d = and_true (bind_ip c) (non_empty c.bind_device) e in
          inl (λ v. both_bound c d.0 d.1 v.1))
        (λ apart.
          if_elim J (bind_ip c)
            (λ i. bind_to_ips-Judges c mode h (non_empty_nil c.bind_device (ground arith)))
            (λ i.
              if_elim J (non_empty c.bind_device)
                (λ _.
                  engine-Judges (IsValidDirect E c) _ (no_ip c h i)
                    (λ e f. inr (inl (mode, c.bind_device, f))))
                (λ _. no_ip c h i)))

  pub map_judged : (P Q : Type 0) (r : Result ℕ) → (P → Q) → (Q → P) → Judges E P r → Judges E Q r
  map_judged P Q (ok a) f g h = f h
  map_judged P Q (err e) f g (inl h) = inl (λ q. h (g q))
  map_judged P Q (err e) f g (inr h) = inr h

  pub direct-Judges :
      (c : ServerConfigOutboundDirect)
      → Judges E (IsValidDirect E c) (server_config_outbound_direct_to_outbound E c)
  unfolding server_config_outbound_direct_to_outbound
  direct-Judges c = direct_with-Judges c _ (direct_mode_judged (to_lower c.mode))
