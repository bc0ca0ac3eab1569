-- ===== src/Session/Send/Padded.antt =====
-- What the padding does to the bytes: it never panics, never touches the payload, and adds waste
-- frames behind it.
use server_anytls.Prelude.{
  ℕ, ◌+◌, ◌≤◌, ◌≡◌, refl, sym, ap, ◌∙◌, List, [], ◌∷◌, ◌++◌, Option, none, some, Bytes, length,
  take, drop, replicate, ltb, ◌==◌, arith, All, All-append, Bool-cases, inl, inr, append-nil,
  append_assoc, take-append-drop, nil_of_length,
}
use server_anytls.Wire.{cmd_waste, header, header_over_head_size}
use server_anytls.Padding.{Size, check_mark, size, max_padding_size}
use server_anytls.Padding.Bounds.{IsSafeSize}
use server_anytls.Session.Send.{
  Assembly, zero_buf, waste, append_waste, assemble_size, assemble, next_size,
}

-- A waste frame of `n` zeros, and several of them.
abbrev pub waste_frame : ℕ → Bytes
waste_frame n = header cmd_waste 0 n ++ replicate n 0

abbrev pub wastes : List ℕ → Bytes
wastes [] = []
wastes (n ∷ ns) = waste_frame n ++ wastes ns

abbrev pub AreWasteLengths : List ℕ → Type 0
AreWasteLengths = All (λ n. n ≤ max_padding_size)

wastes-append : (ms ns : List ℕ) → wastes (ms ++ ns) ≡ wastes ms ++ wastes ns
wastes-append [] ns = refl
wastes-append (m ∷ ms) ns =
    ap (◌++◌ (waste_frame m)) (wastes-append ms ns) ∙ sym (append_assoc (waste_frame m) _ _)

waste-some : (n : ℕ) → n ≤ max_padding_size → waste n ≡ some (waste_frame n)
unfolding waste zero_buf
waste-some n h = ground arith

-- The bytes of `a`, and waste behind them.
abbrev Adds : Assembly → Option Assembly → Type 0
Adds a none = ⊥
Adds a (some c) =
    (ws : List ℕ) × AreWasteLengths ws × (c.assembled ++ c.b ≡ (a.assembled ++ a.b) ++ wastes ws)

append_waste-Adds :
    (a : Assembly) (acc : Bytes) (n : ℕ)
    → n ≤ max_padding_size
    → acc ≡ a.assembled ++ a.b
    → Adds a (append_waste acc (waste n))
append_waste-Adds a acc n h e = rw (waste-some n h) (
  n ∷ [],
  (h, tt),
  append-nil (acc ++ waste_frame n)
      ∙ ap (λ t. t ++ waste_frame n) e
      ∙ ap (◌++◌ (a.assembled ++ a.b)) (sym (append-nil (waste_frame n))),
)

append_empty : (a : Assembly) → length a.b ≡ 0 → a.assembled ≡ a.assembled ++ a.b
append_empty a h = sym (append-nil a.assembled) ∙ ap (◌++◌ a.assembled) (sym (nil_of_length a.b h))

assemble_size-Adds : (l : ℕ) (a : Assembly) → IsSafeSize (size l) → Adds a (assemble_size l a)
unfolding assemble_size
assemble_size-Adds l a h = elim (Bool-cases (ltb l (length a.b))) [
  | inl e ↦ rw e (
    [],
    tt,
    append_assoc a.assembled (take l a.b) (drop l a.b)
        ∙ ap (◌++◌ a.assembled) (take-append-drop l a.b)
        ∙ sym (append-nil _),
  )
  | inr e ↦ elim (Bool-cases (ltb 0 (length a.b))) [
    | inl f ↦ elim (Bool-cases (ltb (length a.b + header_over_head_size) l)) [
      | inl g ↦ rw (e, f, g) (append_waste-Adds a (a.assembled ++ a.b) _ (omega arith) refl)
      | inr g ↦ rw (e, f, g) ([], tt, refl)
    ]
    | inr f ↦ rw (e, f) (append_waste-Adds a a.assembled l h.1 (append_empty a (ground arith)))
  ]
]

-- The same of a finished assembly.
abbrev pub Assembles : Assembly → Option Bytes → Type 0
Assembles a none = ⊥
Assembles a (some out) =
    (ws : List ℕ) × AreWasteLengths ws × (out ≡ (a.assembled ++ a.b) ++ wastes ws)

Assembles-trans :
    (a : Assembly) (o : Option Assembly) (k : Assembly → Option Bytes)
    → Adds a o
    → ((c : Assembly) → Assembles c (k c))
    → Assembles a (next_size k o)
Assembles-trans a none k h rest = absurd h
Assembles-trans a (some c) k (ws, safe, e) rest = joined (k c) (rest c)
  where
    joined : (r : Option Bytes) → Assembles c r → Assembles a r
    joined none g = absurd g
    joined (some out) (vs, safe', f) = (
      ws ++ vs,
      All-append _ ws vs safe safe',
      f
          ∙ ap (λ t. t ++ wastes vs) e
          ∙ append_assoc (a.assembled ++ a.b) (wastes ws) (wastes vs)
          ∙ ap (◌++◌ (a.assembled ++ a.b)) (sym (wastes-append ws vs)),
    )

pub assemble-Assembles :
    (ls : List Size) (a : Assembly) → All IsSafeSize ls → Assembles a (assemble ls a)
unfolding assemble
assemble-Assembles [] a h = ([], tt, sym (append-nil _))
assemble-Assembles (check_mark ∷ ls) a h = elim (Bool-cases (length a.b == 0)) [
  | inl e ↦ rw e ([], tt, append_empty a (ground arith) ∙ sym (append-nil _))
  | inr e ↦ rw e (assemble-Assembles ls a h.1)
]
assemble-Assembles (size l ∷ ls) a h =
    Assembles-trans a (assemble_size l a) (assemble ls) (assemble_size-Adds l a h.0)
      (λ c. assemble-Assembles ls c h.1)
