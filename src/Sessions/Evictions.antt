-- ===== src/Sessions/Evictions.antt =====
-- What a login over the ceiling closes: as many sessions as leave room for the one that is
-- opened, and the least recently used of them.
use mathlib.Core.Path.{subst}
use atrium_go.Base.{
  not, keep, total, ℕ, zero, suc, ◌+◌, ◌-◌, ◌≤◌, ◌<◌, ◌≡◌, refl, sym, ◌⊎◌, inl, inr, true, false,
  List, [], ◌∷◌, map, arith, if◌then◌else◌, In, All, length, take, drop, length-take, Bool-cases,
  ltb,
}
use atrium_go.Base.Int.{ℤ, pos, pos_part, ltb_ℤ, ◌≤ℤ◌}
use atrium_go.Ports.Accounts.{Session}
use atrium_go.Sessions.{session_less, session_id, others, evictions}
use atrium_go.Sorting.{
  sort_by, sort_by-total, IsSorted, sort_by-IsSorted, sort_by-In, length-sort_by,
}
use atrium_go.ItemStore.{holds}
use atrium_go.Text.Laws.{str_eq_iff, str_lt_asym, str_lt_weak}
use atrium_go.Text.{Text}

session_less_asym : (a b : Session) → session_less a b ≡ true → session_less b a ≡ false
unfolding session_less
session_less_asym a b h = ground (arith, str_lt_asym a.id b.id)

session_less_weak :
    (a b c : Session)
    → session_less b a ≡ false
    → session_less c b ≡ false
    → session_less c a ≡ false
unfolding session_less
session_less_weak a b c h k = ground (arith, str_lt_weak a.id b.id c.id)

-- In a sorted list nothing behind a position precedes what stands before it.
split_sorted :
    (k : ℕ) (xs : List Session) (e s : Session)
    → IsSorted session_less xs
    → In e (take k xs)
    → In s (drop k xs)
    → session_less s e ≡ false
split_sorted zero xs e s h i j = elim i [ ]
split_sorted (suc k) [] e s h i j = elim i [ ]
split_sorted (suc k) (x ∷ xs) e s h (inl p) j = rw p (behind k xs s h.0 j)
  where
    behind :
        (k : ℕ) (xs : List Session) (s : Session)
        → All (λ y. session_less y x ≡ false) xs
        → In s (drop k xs)
        → session_less s x ≡ false
    behind zero [] s a j = elim j [ ]
    behind zero (y ∷ ys) s a (inl q) = rw q a.0
    behind zero (y ∷ ys) s a (inr q) = behind zero ys s a.1 q
    behind (suc k) [] s a j = elim j [ ]
    behind (suc k) (y ∷ ys) s a j = behind k ys s a.1 j
split_sorted (suc k) (x ∷ xs) e s h (inr p) j = split_sorted k xs e s h.1 p j

In-take-or-drop :
    (k : ℕ) (xs : List Session) (s : Session) → In s xs → In s (take k xs) ⊎ In s (drop k xs)
In-take-or-drop zero xs s i = inr i
In-take-or-drop (suc k) [] s i = elim i [ ]
In-take-or-drop (suc k) (x ∷ xs) s (inl p) = inl (inl p)
In-take-or-drop (suc k) (x ∷ xs) s (inr p) = elim (In-take-or-drop k xs s p) [
  | inl q ↦ inl (inr q)
  | inr q ↦ inr q
]

In-take : (k : ℕ) (xs : List Session) (s : Session) → In s (take k xs) → In s xs
In-take zero xs s i = elim i [ ]
In-take (suc k) [] s i = elim i [ ]
In-take (suc k) (x ∷ xs) s (inl p) = inl p
In-take (suc k) (x ∷ xs) s (inr p) = inr (In-take k xs s p)

In-map :
    (xs : List Session) (k : Text) → In k (map session_id xs) → (s : Session) × In s xs × (s.id ≡ k)
In-map [] k i = elim i [ ]
In-map (x ∷ xs) k (inl p) = (x, inl refl, sym p)
In-map (x ∷ xs) k (inr p) = let (s, i, e) = In-map xs k p in (s, inr i, e)

map-In : (xs : List Session) (s : Session) → In s xs → In s.id (map session_id xs)
map-In [] s i = elim i [ ]
map-In (x ∷ xs) s (inl p) = inl (ground arith)
map-In (x ∷ xs) s (inr p) = inr (map-In xs s p)

length-map_id : (xs : List Session) → length (map session_id xs) ≡ length xs
length-map_id [] = refl
length-map_id (x ∷ xs) = ground (arith, length-map_id xs)

-- The number that `Evictions` closes out of `n` rivals.
abbrev surplus : ℕ → ℕ → ℕ
surplus n c = if ltb n c then 0 else n - c + 1

length-evictions_lem :
    (all : List Session) (user opening : Text) (c : ℕ)
    → 1 ≤ c
    → length (evictions all user opening (pos c)) ≡ surplus (length (others all user opening)) c
unfolding evictions
length-evictions_lem all user opening c h =
    let rivals = others all user opening in
    elim (Bool-cases (ltb (length rivals) c)) [
      | inl e ↦ ground arith
      | inr e ↦ ground (
        arith,
        length-sort_by session_less rivals,
        length-map_id (take (length rivals - c + 1) (sort_by session_less rivals)),
        length-take (length rivals - c + 1) (sort_by session_less rivals),
      )
    ]

-- The sessions that closing the named ones leaves.
abbrev pub left_open : List Text → List Session → List Session
left_open closed xs = keep (λ s. not (holds closed s.id)) xs

-- One for a session that stays.
abbrev stays : List Text → Session → ℕ
stays closed s = if holds closed s.id then 0 else 1

length-left_open :
    (closed : List Text) (xs : List Session)
    → length (left_open closed xs) ≡ total (stays closed) xs
length-left_open closed [] = refl
length-left_open closed (x ∷ xs) = elim (Bool-cases (holds closed x.id)) [
  | inl e ↦ rw e (omega (arith, length-left_open closed xs))
  | inr e ↦ rw e (ground (arith, length-left_open closed xs))
]

In-holds : (ks : List Text) (k : Text) → In k ks → holds ks k ≡ true
unfolding holds
In-holds [] k h = elim h [ ]
In-holds (i ∷ is) k (inl e) = ground (arith, str_eq_iff i k)
In-holds (i ∷ is) k (inr h) = ground (arith, In-holds is k h)

stays-le : (closed : List Text) (xs : List Session) → total (stays closed) xs ≤ length xs
stays-le closed [] = omega arith
stays-le closed (x ∷ xs) = ground (arith, stays-le closed xs)

-- Closing what is taken from the front leaves at most the rest.
stays_after :
    (closed : List Text) (m : ℕ) (xs : List Session)
    → ((s : Session) → In s (take m xs) → In s.id closed)
    → total (stays closed) xs ≤ length xs - m
stays_after closed zero xs h = omega (arith, stays-le closed xs)
stays_after closed (suc m) [] h = omega arith
stays_after closed (suc m) (x ∷ xs) h =
    let gone = In-holds closed x.id (h x (inl refl)) in
    let rest = stays_after closed m xs (λ s i. h s (inr i)) in rw gone (omega (arith, rest))

-- What `Evictions` names at a ceiling of at least one.
evictions_cases :
    (all : List Session) (user opening : Text) (c : ℕ)
    → 1 ≤ c
    → let rivals = others all user opening in
      ((length rivals < c) × (evictions all user opening (pos c) ≡ []))
      ⊎ ((c ≤ length rivals)
          × (evictions all user opening (pos c)
              ≡ map session_id (take (length rivals - c + 1) (sort_by session_less rivals))))
unfolding evictions
evictions_cases all user opening c h =
    elim (Bool-cases (ltb (length (others all user opening)) c)) [
      | inl e ↦ inl (ground arith, ground arith)
      | inr e ↦ inr (ground arith, ground arith)
    ]

taken-left_open :
    (rivals : List Session) (c : ℕ)
    → 1 ≤ c
    → c ≤ length rivals
    → let m = length rivals - c + 1 in
      length (left_open (map session_id (take m (sort_by session_less rivals))) rivals) + 1 ≤ c
taken-left_open rivals c h k =
    let sorted = sort_by session_less rivals in
    let m = length rivals - c + 1 in
    let closed = map session_id (take m sorted) in
    omega (
      arith,
      length-left_open closed rivals,
      sort_by-total session_less (stays closed) rivals,
      length-sort_by session_less rivals,
      stays_after closed m sorted (λ s i. map-In (take m sorted) s i),
    )

left_open-evictions :
    (all : List Session) (user opening : Text) (c : ℕ)
    → 1 ≤ c
    → length (left_open (evictions all user opening (pos c)) (others all user opening)) + 1 ≤ c
left_open-evictions all user opening c h =
    let rivals = others all user opening in
    elim (evictions_cases all user opening c h) [
      | inl (few, e) ↦
          subst (λ (ks : List Text). length (left_open ks rivals) + 1 ≤ c) (sym e)
            (omega (arith, few, length-left_open [] rivals, stays-le [] rivals))
      | inr (many, e) ↦
          subst (λ (ks : List Text). length (left_open ks rivals) + 1 ≤ c) (sym e)
            (taken-left_open rivals c h many)
    ]

-- With a ceiling of at least one, closing the sessions of the user that `Evictions` names and
-- opening one leaves the user with no more sessions than the ceiling; and it names no more than
-- that needs: none where there is room, else as many as bring the user to exactly the ceiling.
pub length-evictions :
    (all : List Session) (user opening : Text) (c : ℕ)
    → 1 ≤ c
    → let rivals = others all user opening in
      let closed = evictions all user opening (pos c) in
      (length (left_open closed rivals) + 1 ≤ c)
      × (length closed ≤ length rivals)
      × (0 < length closed → length rivals - length closed + 1 ≡ c)
length-evictions all user opening c h =
    let number = length-evictions_lem all user opening c h in
    (left_open-evictions all user opening c h, ground (arith, number), ground (arith, number))

-- The session that stands behind an evicted identifier, and that none that stays precedes.
abbrev pub LeastUsed : List Session → List Text → Text → Type 0
LeastUsed rivals closed k =
    (e : Session) × In e rivals
    × (e.id ≡ k)
    × ((s : Session) → In s rivals → ¬ In s.id closed → session_less s e ≡ false)

-- Taking from the front of the sorted rivals takes the least used.
take-LeastUsed :
    (rivals : List Session) (m : ℕ) (k : Text)
    → let closed = map session_id (take m (sort_by session_less rivals)) in
      In k closed → LeastUsed rivals closed k
take-LeastUsed rivals m k h =
    let sorted = sort_by session_less rivals in
    let (e, i, p) = In-map (take m sorted) k h in
    (
      e,
      (sort_by-In session_less e rivals).0 (In-take m sorted e i),
      p,
      λ s j stays. elim (In-take-or-drop m sorted s ((sort_by-In session_less s rivals).1 j)) [
        | inl t ↦ absurd (stays (map-In (take m sorted) s t))
        | inr d ↦
            split_sorted m sorted e s
              (sort_by-IsSorted session_less session_less_asym session_less_weak rivals) i d
      ],
    )

-- Every identifier that `Evictions` returns is that of a session of the user, not the one that is
-- being opened, and no such session that it leaves open was used before it, or at the same tick
-- with a smaller identifier. There is none if the ceiling is below one.
pub evictions-LeastUsed :
    (all : List Session) (user opening : Text) (ceiling : ℤ) (k : Text)
    → In k (evictions all user opening ceiling)
    → LeastUsed (others all user opening) (evictions all user opening ceiling) k
      × (pos 1 ≤ℤ ceiling)
unfolding evictions
evictions-LeastUsed all user opening ceiling k h =
    let rivals = others all user opening in
    elim (Bool-cases (ltb_ℤ ceiling (pos 1))) [
      | inl e ↦ absurd (rw e at h)
      | inr e ↦ elim (Bool-cases (ltb_ℤ (pos (length rivals)) ceiling)) [
        | inl f ↦ absurd (rw (e, f) at h)
        | inr f ↦
            let m = length rivals - pos_part ceiling + 1 in
            rw (e, f) (take-LeastUsed rivals m k (rw (e, f) at h), ground arith)
      ]
    ]
