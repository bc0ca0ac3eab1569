-- ===== src/Outbound/Built.antt =====
-- `buildOutbound` of outbound.go as a whole.
use server_anytls.Prelude.{
  ℕ, ◌≡◌, refl, ap, ◌∙◌, ◌⊎◌, inl, inr, subst, List, [], ◌∷◌, ◌++◌, Option, Bytes, codes, Error,
  config_error, Result, ok, err, ◌>>=◌, All,
}
use server_anytls.StringMap.{join}
use server_anytls.Outbound.{
  ServerConfigOutboundEntry, ExtConfig, Engine, OutboundEntry, mode_auto, build_entry, cons_entry,
  build_entries, or_default_outbound, router_error, build_router, entries_of, inline_of,
  build_outbound,
}
use server_anytls.Outbound.Direct.{IsValid, Judges}
use server_anytls.Outbound.Valid.{build_entry-Judges}

-- The first entry that fails, behind entries that are built.
abbrev pub FirstError : Engine → List ServerConfigOutboundEntry → Error → Type 0
FirstError E entries e =
    (before : List ServerConfigOutboundEntry) × (entry : ServerConfigOutboundEntry) × (after : List
      ServerConfigOutboundEntry)
    × (entries ≡ before ++ (entry ∷ after))
    × All (λ (x : ServerConfigOutboundEntry). (ob : OutboundEntry) × (build_entry E x ≡ ok ob))
        before
    × (build_entry E entry ≡ err e)

-- Every entry is valid and is built, in order.
abbrev pub Built : Engine → List ServerConfigOutboundEntry → List OutboundEntry → Type 0
Built E [] [] = Unit {0}
Built E (entry ∷ entries) (ob ∷ obs) =
    IsValid E entry × (build_entry E entry ≡ ok ob) × Built E entries obs
Built E _ _ = ⊥

abbrev EntriesBuilt : Engine → List ServerConfigOutboundEntry → Result (List OutboundEntry) → Type 0
EntriesBuilt E entries (ok obs) = Built E entries obs
EntriesBuilt E entries (err e) = FirstError E entries e

module _ (E : Engine) where
  cons_entry-EntriesBuilt :
      (entry : ServerConfigOutboundEntry) (entries : List ServerConfigOutboundEntry)
      (r : Result OutboundEntry) (rest : Result (List OutboundEntry))
      → build_entry E entry ≡ r
      → Judges E (IsValid E entry) r
      → EntriesBuilt E entries rest
      → EntriesBuilt E (entry ∷ entries) (cons_entry r rest)
  cons_entry-EntriesBuilt entry entries (err e) rest b j h = ([], entry, entries, refl, tt, b)
  cons_entry-EntriesBuilt entry entries (ok ob) (ok obs) b j h = (j, b, h)
  cons_entry-EntriesBuilt entry entries (ok ob) (err e) b j (before, bad, after, s, good, f) =
      (entry ∷ before, bad, after, ap (◌∷◌ entry) s, ((ob, b), good), f)

  build_entries-EntriesBuilt :
      (entries : List ServerConfigOutboundEntry) → EntriesBuilt E entries (build_entries E entries)
  unfolding build_entries
  build_entries-EntriesBuilt [] = tt
  build_entries-EntriesBuilt (entry ∷ entries) =
      cons_entry-EntriesBuilt entry entries (build_entry E entry) (build_entries E entries) refl
        (build_entry-Judges E entry) (build_entries-EntriesBuilt entries)

-- The text of the rules, and the field that their error is reported under.
abbrev pub rules_text : List Bytes → Bytes
rules_text [] = codes "default(all)"
rules_text (rule ∷ rules) = join b'\n' (rule ∷ rules)

abbrev pub rules_field : List Bytes → Bytes
rules_field [] = codes "outbound"
rules_field (rule ∷ rules) = codes "acl.inline"

-- The outbounds that the router gets.
abbrev pub routed_to : Engine → List OutboundEntry → List OutboundEntry
routed_to E [] = record { entry_name = codes "default"; outbound = E.new_direct mode_auto } ∷ []
routed_to E (ob ∷ obs) = ob ∷ obs

-- A router of the configured outbounds, or of a direct one if there are none, and of the rules, or
-- of the rule that takes all; else the first outbound that fails, or the router's own error.
abbrev pub Routes : Engine → Bytes → Option ExtConfig → Result ℕ → Type 0
Routes E data_dir ext_config (ok r) =
    (obs : List OutboundEntry) × Built E (entries_of ext_config) obs
    × (E.new_router (rules_text (inline_of ext_config)) (routed_to E obs) data_dir ≡ ok r)
Routes E data_dir ext_config (err e) =
    FirstError E (entries_of ext_config) e
    ⊎ ((obs : List OutboundEntry) × (cause : Error) × Built E (entries_of ext_config) obs
        × (E.new_router (rules_text (inline_of ext_config)) (routed_to E obs) data_dir ≡ err cause)
        × (e ≡ config_error (rules_field (inline_of ext_config)) cause))

module _ (E : Engine) (data_dir : Bytes) (ext_config : Option ExtConfig) where
  router_error-Routes :
      (obs : List OutboundEntry) (r : Result ℕ)
      → Built E (entries_of ext_config) obs
      → E.new_router (rules_text (inline_of ext_config)) (routed_to E obs) data_dir ≡ r
      → Routes E data_dir ext_config (router_error (rules_field (inline_of ext_config)) r)
  router_error-Routes obs (ok r) h e = (obs, h, e)
  router_error-Routes obs (err g) h e = inr (obs, g, h, e, refl)

or_default_outbound_same :
    (E : Engine) (obs : List OutboundEntry) → routed_to E obs ≡ or_default_outbound E obs
or_default_outbound_same E [] = refl
or_default_outbound_same E (ob ∷ obs) = refl

build_router_same :
    (E : Engine) (data_dir : Bytes) (rules : List Bytes) (obs : List OutboundEntry)
    → router_error (rules_field rules) (E.new_router (rules_text rules) obs data_dir)
      ≡ build_router E data_dir rules obs
build_router_same E data_dir [] obs = refl
build_router_same E data_dir (rule ∷ rules) obs = refl

bind-Routes :
    (E : Engine) (data_dir : Bytes) (ext_config : Option ExtConfig)
    (r : Result (List OutboundEntry))
    → EntriesBuilt E (entries_of ext_config) r
    → Routes E data_dir ext_config
        (r >>= (λ obs. build_router E data_dir (inline_of ext_config) (or_default_outbound E obs)))
bind-Routes E data_dir ext_config (err e) h = inl h
bind-Routes E data_dir ext_config (ok obs) h =
    subst (Routes E data_dir ext_config)
      (build_router_same E data_dir (inline_of ext_config) (routed_to E obs)
        ∙ ap (build_router E data_dir (inline_of ext_config)) (or_default_outbound_same E obs))
      (router_error-Routes E data_dir ext_config obs _ h refl)

-- `buildOutbound` gives a router only if every configured outbound is valid and was built; the
-- router gets them in their order, or a direct one if there are none, with the ACL rules, or the
-- rule that sends all to the first one if there are none. It fails with the error of the first
-- outbound that cannot be built, or with that of the router under the name of its field.
pub build_outbound-Routes :
    (E : Engine) (data_dir : Bytes) (ext_config : Option ExtConfig)
    → Routes E data_dir ext_config (build_outbound E data_dir ext_config)
unfolding build_outbound
build_outbound-Routes E data_dir ext_config =
    bind-Routes E data_dir ext_config (build_entries E (entries_of ext_config))
      (build_entries-EntriesBuilt E (entries_of ext_config))
