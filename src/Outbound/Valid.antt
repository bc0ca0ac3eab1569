-- ===== src/Outbound/Valid.antt =====
-- utils.go and the loop of outbound.go: which settings of an outbound are taken.
use server_anytls.Prelude.{
  ℕ, ◌≡◌, refl, sym, ◌∙◌, ◌≢◌, inl, inr, [], Bytes, codes, equal, equal_iff, Result, ok, err,
  if_elim,
}
use server_anytls.Outbound.{
  ServerConfigOutboundSocks5, ServerConfigOutboundHttp, ServerConfigOutboundEntry, Engine,
  OutboundEntry, to_lower, server_config_outbound_socks5_to_outbound,
  server_config_outbound_http_to_outbound, outbound_of, with_name, build_entry,
}
use server_anytls.Outbound.Direct.{
  IsValidDirect, IsValidKind, IsValid, Judges, differs, engine-Judges, map_judged, direct-Judges,
}

module _ (E : Engine) where
  socks5-Judges :
      (c : ServerConfigOutboundSocks5)
      → Judges E (c.addr ≢ []) (server_config_outbound_socks5_to_outbound E c)
  unfolding server_config_outbound_socks5_to_outbound
  socks5-Judges c =
      if_elim (Judges {A = ℕ} E (c.addr ≢ [])) (equal c.addr [])
        (λ e. inl (λ h. h ((equal_iff c.addr []).0 e))) (λ e. differs c.addr [] e)

  http-Judges :
      (c : ServerConfigOutboundHttp)
      → Judges E (c.url ≢ []) (server_config_outbound_http_to_outbound E c)
  unfolding server_config_outbound_http_to_outbound
  http-Judges c =
      if_elim (Judges {A = ℕ} E (c.url ≢ [])) (equal c.url [])
        (λ e. inl (λ h. h ((equal_iff c.url []).0 e)))
        (λ e.
          engine-Judges E (c.url ≢ []) _ (differs c.url [] e)
            (λ g f. inr (inr (c.url, c.insecure, f))))

  pick_direct :
      (entry : ServerConfigOutboundEntry) (kind : Bytes)
      → kind ≡ codes "direct"
      → IsValidKind E entry kind
      → IsValidDirect E entry.direct
  unfolding equal
  pick_direct entry kind k (inl (_, v)) = v
  pick_direct entry kind k (inr (inl (j, v))) = absurd (differs _ _ refl (sym k ∙ j))
  pick_direct entry kind k (inr (inr (j, v))) = absurd (differs _ _ refl (sym k ∙ j))

  pick_socks5 :
      (entry : ServerConfigOutboundEntry) (kind : Bytes)
      → kind ≡ codes "socks5"
      → IsValidKind E entry kind
      → entry.socks5.addr ≢ []
  unfolding equal
  pick_socks5 entry kind k (inl (j, v)) = absurd (differs _ _ refl (sym k ∙ j))
  pick_socks5 entry kind k (inr (inl (_, v))) = v
  pick_socks5 entry kind k (inr (inr (j, v))) = absurd (differs _ _ refl (sym k ∙ j))

  pick_http :
      (entry : ServerConfigOutboundEntry) (kind : Bytes)
      → kind ≡ codes "http"
      → IsValidKind E entry kind
      → entry.http.url ≢ []
  unfolding equal
  pick_http entry kind k (inl (j, v)) = absurd (differs _ _ refl (sym k ∙ j))
  pick_http entry kind k (inr (inl (j, v))) = absurd (differs _ _ refl (sym k ∙ j))
  pick_http entry kind k (inr (inr (_, v))) = v

  unknown_kind :
      (entry : ServerConfigOutboundEntry) (kind : Bytes)
      → kind ≢ codes "direct"
      → kind ≢ codes "socks5"
      → kind ≢ codes "http"
      → ¬ IsValidKind E entry kind
  unknown_kind entry kind d s h (inl (j, v)) = d j
  unknown_kind entry kind d s h (inr (inl (j, v))) = s j
  unknown_kind entry kind d s h (inr (inr (j, v))) = h j

  outbound_of-Judges :
      (entry : ServerConfigOutboundEntry) (kind : Bytes)
      → Judges E (IsValidKind E entry kind) (outbound_of E entry kind)
  unfolding outbound_of
  outbound_of-Judges entry kind =
      let V = IsValidKind E entry kind in
      let J = Judges {A = ℕ} E V in
      if_elim J (equal kind (codes "direct"))
        (λ e.
          let k = (equal_iff kind (codes "direct")).0 e in
          map_judged E _ V _ (λ v. inl (k, v)) (pick_direct entry kind k)
            (direct-Judges E entry.direct))
        (λ not_direct.
          if_elim J (equal kind (codes "socks5"))
            (λ e.
              let k = (equal_iff kind (codes "socks5")).0 e in
              map_judged E _ V _ (λ v. inr (inl (k, v))) (pick_socks5 entry kind k)
                (socks5-Judges entry.socks5))
            (λ not_socks5.
              if_elim J (equal kind (codes "http"))
                (λ e.
                  let k = (equal_iff kind (codes "http")).0 e in
                  map_judged E _ V _ (λ v. inr (inr (k, v))) (pick_http entry kind k)
                    (http-Judges entry.http))
                (λ not_http. inl (
                  unknown_kind entry kind (differs kind _ not_direct) (differs kind _ not_socks5)
                    (differs kind _ not_http)))))

  with_name-Judges :
      (entry : ServerConfigOutboundEntry) (r : Result ℕ)
      → entry.name ≢ []
      → Judges E (IsValidKind E entry (to_lower entry.outbound_type)) r
      → Judges E (IsValid E entry) (with_name entry.name r)
  with_name-Judges entry (ok ob) n h = (n, h)
  with_name-Judges entry (err e) n (inl h) = inl (λ v. h v.1)
  with_name-Judges entry (err e) n (inr h) = inr h

-- An outbound is built only from valid settings: a name, a known type in any case, and for a direct
-- one a known mode, not both an address and a device, and addresses that parse, for the others an
-- address; an error is one of acl-engine, or the settings are not valid.
pub build_entry-Judges :
    (E : Engine) (entry : ServerConfigOutboundEntry)
    → Judges E (IsValid E entry) (build_entry E entry)
unfolding build_entry
build_entry-Judges E entry =
    if_elim (Judges {A = OutboundEntry} E (IsValid E entry)) (equal entry.name [])
      (λ e. inl (λ v. v.0 ((equal_iff entry.name []).0 e)))
      (λ e.
        with_name-Judges E entry _ (differs entry.name [] e)
          (outbound_of-Judges E entry (to_lower entry.outbound_type)))
