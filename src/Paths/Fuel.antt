-- ===== src/Paths/Fuel.antt =====
-- The fuel that a segment is compiled with is enough.
use atrium_go.Base.{
  ℕ, zero, suc, ◌≡◌, ◌≤◌, ◌<◌, ◌+◌, refl, inl, inr, Bool, true, false, not, ◌&&◌, Option, none,
  some, List, [], ◌∷◌, arith, Bool-cases, Option-cases, length,
}
use atrium_go.Paths.Compile.{
  PathPart, compile_opened, compile_runs, compile_segment, has_byte, follows,
}
use atrium_go.Text.{Text, cut, nonempty}

cut-length : (sep : ℕ) (s a b : Text) → cut sep s ≡ some (a, b) → length b < length s
unfolding cut
cut-length sep [] a b h = cc
cut-length sep (c ∷ s) a b h = elim (Option-cases (cut sep s)) [
  | inl e ↦ ground arith
  | inr ((x, y), e) ↦ ground (arith, cut-length sep s x y e)
]

compile_opened-eq :
    (last : Bool) (s : Text) (o : Option (Text × Text)) (f g : Text → Option (List PathPart))
    → ((before behind name rest : Text)
        → o ≡ some (before, behind)
        → cut b'}' behind ≡ some (name, rest)
        → f rest ≡ g rest)
    → compile_opened last s o f ≡ compile_opened last s o g
unfolding compile_opened
compile_opened-eq last s none f g h = refl
compile_opened-eq last s (some (before, behind)) f g h =
    elim (Bool-cases (not (has_byte b'}' before))) [
      | inr e ↦ rw e refl
      | inl e ↦ elim (Option-cases (cut b'}' behind)) [
        | inl n ↦ rw (e, n) refl
        | inr ((name, rest), n) ↦
            elim (Bool-cases
              (nonempty name && not (has_byte b'{' name) && not (follows last before))) [
                | inr m ↦ rw (e, n, m) refl
                | inl m ↦ rw (e, n, m, h before behind name rest refl n) refl
              ]
      ]
    ]

compile_runs-fuel :
    (n m : ℕ) (last : Bool) (s : Text)
    → length s ≤ n
    → length s ≤ m
    → compile_runs n last s ≡ compile_runs m last s
unfolding compile_runs
compile_runs-fuel n m last [] h k = refl
compile_runs-fuel zero m last (c ∷ s) h k = absurd (omega arith)
compile_runs-fuel (suc n) zero last (c ∷ s) h k = absurd (omega arith)
compile_runs-fuel (suc n) (suc m) last (c ∷ s) h k =
    compile_opened-eq last (c ∷ s) (cut b'{' (c ∷ s)) (λ rest. compile_runs n true rest)
      (λ rest. compile_runs m true rest)
      (λ before behind name rest e d.
        compile_runs-fuel n m true rest
          (omega
            (arith, cut-length b'{' (c ∷ s) before behind e, cut-length b'}' behind name rest d))
          (omega
            (arith, cut-length b'{' (c ∷ s) before behind e, cut-length b'}' behind name rest d)))

-- A segment is compiled to the same runs, or refused the same way, with any more fuel than its
-- length, which is what it is given.
compile_segment-fuel :
    (more : ℕ) (segment : Text)
    → compile_runs (length segment + more) false segment ≡ compile_segment segment
unfolding compile_segment
compile_segment-fuel more segment =
    compile_runs-fuel (length segment + more) (length segment) false segment (omega arith)
      (omega arith)
