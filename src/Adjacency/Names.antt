-- ===== src/Adjacency/Names.antt =====
-- The maps of names, against the places of the names in a list.
use toolchain_cpp.Common.{
  ℕ, zero, suc, ◌+◌, ◌≡◌, refl, subst, ◌∙◌, arith, Bool, true, false, Bool-cases, inl, inr, List,
  [], ◌∷◌, Option, none, some, if◌then◌else◌, Bytes, same, same→eq,
}
use toolchain_cpp.Adjacency.{Names, find_name, index_names, put_name}
use toolchain_cpp.Adjacency.Swaps.{adj}

abbrev pub next : Option ℕ → Option ℕ
next none = none
next (some i) = some (suc i)

-- The first place of a name.
unfoldable pub index_of : List Bytes → Bytes → Option ℕ
index_of [] x = none
index_of (n ∷ ns) x = let later = index_of ns x in if same n x then some 0 else next later

abbrev pub found : Option ℕ → Bool
found none = false
found (some i) = true

abbrev pub Distinct : List Bytes → Type 0
Distinct [] = Unit
Distinct (n ∷ ns) = (found (index_of ns n) ≡ false) × Distinct ns

pub found-next : (o : Option ℕ) → found (next o) ≡ found o
found-next none = refl
found-next (some i) = refl

pub found-none : (o : Option ℕ) → found o ≡ false → o ≡ none
found-none none h = refl
found-none (some i) h = cc

pub found-index_of-adj :
    (i : ℕ) (ns : List Bytes) (x : Bytes) → found (index_of (adj i ns) x) ≡ found (index_of ns x)
unfolding index_of
found-index_of-adj zero [] x = refl
found-index_of-adj (suc i) [] x = refl
found-index_of-adj zero (a ∷ []) x = refl
found-index_of-adj zero (a ∷ b ∷ ns) x =
    let p = found-next (next (index_of ns x)) in let q = found-next (index_of ns x) in ground arith
found-index_of-adj (suc i) (a ∷ ns) x =
    let p = found-next (index_of (adj i ns) x) in
    let q = found-next (index_of ns x) in let ih = found-index_of-adj i ns x in ground arith

pub same_comm : (cs ds : Bytes) → same cs ds ≡ same ds cs
unfolding same
same_comm [] [] = refl
same_comm [] (d ∷ ds) = refl
same_comm (c ∷ cs) [] = refl
same_comm (c ∷ cs) (d ∷ ds) = let ih = same_comm cs ds in ground arith

pub Distinct-adj : (i : ℕ) (ns : List Bytes) → Distinct ns → Distinct (adj i ns)
unfolding index_of
Distinct-adj zero [] h = h
Distinct-adj (suc i) [] h = h
Distinct-adj zero (a ∷ []) h = h
Distinct-adj zero (a ∷ b ∷ ns) (other, (later, rest)) =
    let p = found-next (index_of ns a) in
    let q = found-next (index_of ns b) in
    let s = same_comm a b in (ground arith, (ground arith, rest))
Distinct-adj (suc i) (a ∷ ns) (other, rest) =
    (found-index_of-adj i ns a ∙ other, Distinct-adj i ns rest)

pub find_name-put_name :
    (names : Names) (n : Bytes) (i : ℕ) (x : Bytes)
    → find_name (put_name names n i) x ≡ (if same n x then some i else find_name names x)
unfolding find_name put_name
find_name-put_name [] n i x = refl
find_name-put_name ((m, j) ∷ names) n i x =
    let ih = find_name-put_name names n i x in
    elim (Bool-cases (same m n)) [
      | inl e ↦ let eq = same→eq m n e in ground arith
      | inr e ↦ elim (Bool-cases (same m x)) [
        | inl f ↦ let eq = same→eq m x f in let s = same_comm m n in ground arith
        | inr f ↦ ground arith
      ]
    ]

-- Where a name is found once the names from `index` on are put into a map.
abbrev pub shifted : ℕ → Option ℕ → Option ℕ → Option ℕ
shifted index none old = old
shifted index (some i) old = some (index + i)

pub find_name-index_names :
    (index : ℕ) (ns : List Bytes) (names : Names) (x : Bytes)
    → Distinct ns
    → find_name (index_names index ns names) x ≡ shifted index (index_of ns x) (find_name names x)
unfolding index_names index_of
find_name-index_names index [] names x h = refl
find_name-index_names index (n ∷ ns) names x (other, rest) =
    let ih = find_name-index_names (suc index) ns (put_name names n index) x rest in
    let put = find_name-put_name names n index x in
    elim (Bool-cases (same n x)) [
      | inl e ↦
          let absent =
            found-none (index_of ns x)
              (subst (λ y. found (index_of ns y) ≡ false) (same→eq n x e) other) in
          ground arith
      | inr e ↦ ground arith
    ]
