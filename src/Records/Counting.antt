-- ===== src/Records/Counting.antt =====
-- What a counter holds after a sequence of increments, each through the table of the records.
use toolchain_cpp.Common.{
  ℕ, ◌+◌, ◌%◌, ◌≤◌, ◌<◌, ◌≡◌, ◌≢◌, refl, ◌∙◌, arith, false, List, [], ◌∷◌, All, some, ◌==◌,
  if◌then◌else◌, Result, ok, ◌>>=◌,
}
use toolchain_cpp.Common.Int.{ℤ, pos, negsuc, pos_part, neg_part}
use toolchain_cpp.Records.{
  Doubles, MonParam, counter, AbstractMonParam, MonParamDescriptor, size_modulus, to_size,
}
use toolchain_cpp.Records
use toolchain_cpp.Records.Store.{RecordsType, find_param, with_param, increment}

abbrev pub IsInt64 : ℤ → Type 0
IsInt64 z = (pos_part z < 9223372036854775808) × (neg_part z ≤ 9223372036854775808)

unfoldable pub ups : List ℤ → ℕ
ups [] = 0
ups (z ∷ zs) = pos_part z + ups zs

unfoldable pub downs : List ℤ → ℕ
downs [] = 0
downs (z ∷ zs) = neg_part z + downs zs

-- One increment, as the wrapped sum is read modulo 2 ^ 64.
to_size-parts :
    (value : ℕ) (step : ℤ)
    → IsInt64 step
    → ((value + to_size step) % size_modulus + neg_part step) % size_modulus
      ≡ (value + pos_part step) % size_modulus
unfolding to_size
to_size-parts value (pos n) h = omega arith
to_size-parts value (negsuc n) h = omega arith

module _ {doubles : Doubles} where
  unfoldable pub increments :
      (ℕ → MonParam doubles)
      → RecordsType
      → MonParamDescriptor
      → List ℤ
      → Result (ℕ → MonParam doubles)
  increments params records descriptor [] = ok params
  increments params records descriptor (step ∷ steps) =
      increment params records descriptor step >>= λ params'.
      increments params' records descriptor steps

  pub record IsCounter (params : ℕ → MonParam doubles) (address high value : ℕ) : Type 0 where
    pub counter_base : AbstractMonParam
    pub holds : params address ≡ counter counter_base value high

  with_param-eq :
      (method : MonParam doubles → Result (MonParam doubles)) (params : ℕ → MonParam doubles)
      (records : RecordsType) (descriptor : MonParamDescriptor) (address : ℕ) {p : MonParam doubles}
      → find_param records descriptor.code ≡ some address
      → method (params address) ≡ ok p
      → with_param method params records descriptor ≡ ok (λ a. if a == address then p else params a)
  unfolding with_param
  with_param-eq method params records descriptor address f e = ground arith

  -- One increment through the table.
  increment-IsCounter :
      (params : ℕ → MonParam doubles) (records : RecordsType) (descriptor : MonParamDescriptor)
      (address high value : ℕ) (step : ℤ)
      → find_param records descriptor.code ≡ some address
      → IsCounter params address high value
      → (params' : ℕ → MonParam doubles) × (increment params records descriptor step ≡ ok params')
        × IsCounter params' address high ((value + to_size step) % size_modulus)
        × ((a : ℕ) → a ≢ address → params' a ≡ params a)
  unfolding Records.increment
  increment-IsCounter params records descriptor address high value step f c =
      let p =
        counter (record c.counter_base { is_null = false }) ((value + to_size step) % size_modulus)
          high in
      (
        λ a. if a == address then p else params a,
        with_param-eq _ params records descriptor address f (rw c.holds refl),
        record { counter_base = record c.counter_base { is_null = false }; holds = ground arith },
        λ a h. ground arith,
      )

  -- After any sequence of increments of a counter that the table holds, each by an `int64_t`, the counter holds
  -- its value and the sum of the steps modulo 2 ^ 64, and below that, and no other parameter has changed.
  pub increments_sum :
      (params : ℕ → MonParam doubles) (records : RecordsType) (descriptor : MonParamDescriptor)
      (address high value : ℕ) (steps : List ℤ)
      → find_param records descriptor.code ≡ some address
      → IsCounter params address high value
      → value < size_modulus
      → All IsInt64 steps
      → (params' : ℕ → MonParam doubles) × (value' : ℕ) × (increments params records descriptor
            steps
          ≡ ok params')
        × IsCounter params' address high value'
        × (value' < size_modulus)
        × ((value' + downs steps) % size_modulus ≡ (value + ups steps) % size_modulus)
        × ((a : ℕ) → a ≢ address → params' a ≡ params a)
  unfolding increments ups downs
  increments_sum params records descriptor address high value [] f c l all =
      (params, value, refl, c, l, refl, λ a h. refl)
  increments_sum params records descriptor address high value (step ∷ steps) f c l all =
      let (params1, e, c1, same1) =
        increment-IsCounter params records descriptor address high value step f c in
      let (params2, value2, e2, c2, small, sum, same2) =
        increments_sum params1 records descriptor address high _ steps f c1 (omega arith) all.1 in
      (
        params2,
        value2,
        rw e e2,
        c2,
        small,
        omega (arith, sum, to_size-parts value step all.0),
        λ a h. same2 a h ∙ same1 a h,
      )
