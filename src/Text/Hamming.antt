-- ===== src/Text/Hamming.antt =====
-- `hamming` is a distance.
use toolchain_cpp.Common.{
  ℕ, ◌+◌, ◌-◌, ◌%◌, ◌≤◌, ◌<◌, ◌≡◌, ◌↔◌, refl, sym, ap, ◌∙◌, subst, arith, not, [], ◌∷◌, ◌==◌,
  if◌then◌else◌, min, max, Bytes, length, ok,
}
use toolchain_cpp.Text.{differing, hamming}
use toolchain_cpp.Common.Int.{pos, to_int-pos}

-- The differing places and the difference of the lengths.
pub distance : Bytes → Bytes → ℕ
distance cs ds = differing cs ds + (max (length cs) (length ds) - min (length cs) (length ds))

distance-cons :
    (c d : ℕ) (cs ds : Bytes)
    → distance (c ∷ cs) (d ∷ ds) ≡ (if not (c == d) then 1 else 0) + distance cs ds
unfolding distance differing
distance-cons c d cs ds = ground arith

distance-nil : (ds : Bytes) → distance [] ds ≡ length ds
unfolding distance differing
distance-nil ds = omega arith

distance-left : (cs : Bytes) → distance cs [] ≡ length cs
unfolding distance differing
distance-left [] = omega arith
distance-left (c ∷ cs) = omega arith

distance_comm : (cs ds : Bytes) → distance cs ds ≡ distance ds cs
distance_comm [] ds = omega (arith, distance-nil ds, distance-left ds)
distance_comm (c ∷ cs) [] = omega (arith, distance-nil (c ∷ cs), distance-left (c ∷ cs))
distance_comm (c ∷ cs) (d ∷ ds) =
    let ih = distance_comm cs ds in
    let l = distance-cons c d cs ds in let r = distance-cons d c ds cs in ground arith

length-le_distance : (ds es : Bytes) → length es ≤ length ds + distance ds es
length-le_distance [] es = omega (arith, distance-nil es)
length-le_distance (d ∷ ds) [] = omega arith
length-le_distance (d ∷ ds) (e ∷ es) =
    let ih = length-le_distance ds es in let l = distance-cons d e ds es in ground arith

distance-le_lengths : (cs es : Bytes) → distance cs es ≤ length cs + length es
distance-le_lengths [] es = omega (arith, distance-nil es)
distance-le_lengths (c ∷ cs) [] = omega (arith, distance-left (c ∷ cs))
distance-le_lengths (c ∷ cs) (e ∷ es) =
    let ih = distance-le_lengths cs es in let l = distance-cons c e cs es in ground arith

distance_triangle : (cs ds es : Bytes) → distance cs es ≤ distance cs ds + distance ds es
distance_triangle [] ds es =
    omega (arith, distance-nil ds, distance-nil es, length-le_distance ds es)
distance_triangle (c ∷ cs) [] es =
    omega (arith, distance-le_lengths (c ∷ cs) es, distance-left (c ∷ cs), distance-nil es)
distance_triangle (c ∷ cs) (d ∷ ds) [] = omega (
  arith,
  distance-left (c ∷ cs),
  distance-left (d ∷ ds),
  length-le_distance (d ∷ ds) (c ∷ cs),
  distance_comm (c ∷ cs) (d ∷ ds),
)
distance_triangle (c ∷ cs) (d ∷ ds) (e ∷ es) =
    let ih = distance_triangle cs ds es in
    let l = distance-cons c d cs ds in
    let m = distance-cons d e ds es in let r = distance-cons c e cs es in ground arith

distance_zero : (cs ds : Bytes) → distance cs ds ≡ 0 → cs ≡ ds
distance_zero [] [] h = refl
distance_zero [] (d ∷ ds) h = absurd (omega (arith, distance-nil (d ∷ ds)))
distance_zero (c ∷ cs) [] h = absurd (omega (arith, distance-left (c ∷ cs)))
distance_zero (c ∷ cs) (d ∷ ds) h =
    let l = distance-cons c d cs ds in
    let rest : distance cs ds ≡ 0 = omega arith in let ih = distance_zero cs ds rest in ground arith

distance_self : (cs : Bytes) → distance cs cs ≡ 0
distance_self [] = distance-nil []
distance_self (c ∷ cs) =
    let ih = distance_self cs in let l = distance-cons c c cs cs in ground arith

differing-le : (cs ds : Bytes) → differing cs ds ≤ min (length cs) (length ds)
unfolding differing
differing-le [] ds = omega arith
differing-le (c ∷ cs) [] = omega arith
differing-le (c ∷ cs) (d ∷ ds) = let ih = differing-le cs ds in ground arith

hamming-distance :
    (cs ds : Bytes)
    → length cs < 2147483648
    → length ds < 2147483648
    → hamming cs ds ≡ ok (pos (distance cs ds))
unfolding hamming distance
hamming-distance cs ds h k =
    let count = differing-le cs ds in
    let total = differing cs ds + (max (length cs) (length ds) - min (length cs) (length ds)) in
    let small : total % 18446744073709551616 ≡ total = omega arith in
    let int = to_int-pos total (omega arith) in rw small (rw int (ground arith))

-- `hamming` is a distance on texts of fewer than 2147483648 octets, whether or not they have the same length: it returns a
-- number that is not negative, which is 0 for equal texts only, it does not depend on the order of the two, and by
-- way of a third text it is no shorter.
pub hamming-Distance :
    (cs ds es : Bytes)
    → length cs < 2147483648
    → length ds < 2147483648
    → length es < 2147483648
    → (m n k : ℕ) × (hamming cs ds ≡ ok (pos m))
      × (hamming ds es ≡ ok (pos n))
      × (hamming cs es ≡ ok (pos k))
      × ((m ≡ 0) ↔ (cs ≡ ds))
      × (hamming ds cs ≡ hamming cs ds)
      × (k ≤ m + n)
hamming-Distance cs ds es a b c = (
  distance cs ds,
  distance ds es,
  distance cs es,
  hamming-distance cs ds a b,
  hamming-distance ds es b c,
  hamming-distance cs es a c,
  (distance_zero cs ds, λ e. subst (λ t. distance cs t ≡ 0) e (distance_self cs)),
  hamming-distance ds cs b a
      ∙ ap (λ n. ok (pos n)) (distance_comm ds cs)
      ∙ sym (hamming-distance cs ds a b),
  distance_triangle cs ds es,
)
