-- ===== src/Text/Ends.antt =====
-- `endswith` and the end of a text.
use toolchain_cpp.Common.{
  ◌≡◌, ◌↔◌, refl, sym, subst, ap, ◌∙◌, arith, true, [], ◌∷◌, ◌++◌, append_assoc, append-nil, Bytes,
  length-append,
}
use toolchain_cpp.Text.{backwards, endswith, equal_front}

backwards-append : (s out : Bytes) → backwards s out ≡ backwards s [] ++ out
unfolding backwards
backwards-append [] out = refl
backwards-append (c ∷ s) out =
    backwards-append s (c ∷ out)
    ∙ sym (append_assoc (backwards s []) (c ∷ []) out)
    ∙ ap (λ t. t ++ out) (sym (backwards-append s (c ∷ [])))

-- A text turned round twice.
backwards_twice : (s out : Bytes) → backwards (backwards s out) [] ≡ backwards out s
unfolding backwards
backwards_twice [] out = refl
backwards_twice (c ∷ s) out = backwards_twice s (c ∷ out)

backwards-of-append : (s t out : Bytes) → backwards (s ++ t) out ≡ backwards t (backwards s out)
unfolding backwards
backwards-of-append [] t out = refl
backwards-of-append (c ∷ s) t out = backwards-of-append s t (c ∷ out)

equal_front→append :
    (with s : Bytes) → equal_front with s ≡ true → (rest : Bytes) × (s ≡ with ++ rest)
unfolding equal_front
equal_front→append [] s h = (s, refl)
equal_front→append (c ∷ with) [] h = cc
equal_front→append (c ∷ with) (d ∷ s) h =
    let first : c ≡ d = ground arith in
    let later : equal_front with s ≡ true = ground arith in
    let (rest, e) = equal_front→append with s later in (rest, cc)

equal_front-append : (with rest : Bytes) → equal_front with (with ++ rest) ≡ true
unfolding equal_front
equal_front-append [] rest = refl
equal_front-append (c ∷ with) rest = let ih = equal_front-append with rest in ground arith

endswith→append :
    (s with : Bytes) → endswith s with ≡ true → (before : Bytes) × (s ≡ before ++ with)
unfolding endswith backwards
endswith→append s [] h = (s, sym (append-nil s))
endswith→append s (c ∷ with) h =
    let front : equal_front (backwards (c ∷ with) []) (backwards s []) ≡ true = ground arith in
    let (rest, e) = equal_front→append (backwards (c ∷ with) []) (backwards s []) front in
    (
      backwards rest [],
      sym (backwards_twice s [])
          ∙ ap (λ t. backwards t []) e
          ∙ backwards-of-append (backwards (c ∷ with) []) rest []
          ∙ ap (λ t. backwards rest t) (backwards_twice (c ∷ with) [])
          ∙ backwards-append rest (c ∷ with),
    )

append→endswith : (before with : Bytes) → endswith (before ++ with) with ≡ true
unfolding endswith
append→endswith before [] = refl
append→endswith before (c ∷ with) =
    let turned =
      backwards-of-append before (c ∷ with) []
      ∙ backwards-append (c ∷ with) (backwards before []) in
    let front =
      ap (λ t. equal_front (backwards (c ∷ with) []) t) turned
      ∙ equal_front-append (backwards (c ∷ with) []) (backwards before []) in
    let l = length-append before (c ∷ with) in ground arith

-- A text ends with another one exactly when it is some text followed by that one.
pub endswith-append :
    (s with : Bytes) → (endswith s with ≡ true) ↔ ((before : Bytes) × (s ≡ before ++ with))
endswith-append s with = (
  endswith→append s with,
  λ (before, e). subst (λ t. endswith t with ≡ true) (sym e) (append→endswith before with),
)
