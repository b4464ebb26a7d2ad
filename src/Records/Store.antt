-- ===== src/Records/Store.antt =====
-- `MonitoredRecords`, and `Monitorable`, which calls it with a mutex held. A parameter is shared with whoever
-- else has its pointer: parameters live at addresses, and a table maps codes to addresses.
use toolchain_cpp.Common.{
  ℕ, List, [], ◌∷◌, Option, none, some, ◌==◌, if◌then◌else◌, Result, ok, aborted, ◌>>=◌,
}
use toolchain_cpp.Common.Int.{ℤ}
use toolchain_cpp.Records.{Doubles, MonParam, base, MonParamDescriptor}
use toolchain_cpp.Records

abbrev pub RecordsType : Type 0
RecordsType = List (ℕ × ℕ)

unfoldable pub find_param : RecordsType → ℕ → Option ℕ
find_param [] code = none
find_param ((c, address) ∷ rest) code =
    let found = find_param rest code in if c == code then some address else found

pub clear : RecordsType → RecordsType
clear records = []

module _ {doubles : Doubles} where
  open doubles use {Double}

  -- `insert` changes nothing when the code is taken.
  unfoldable pub add_parameter : (ℕ → MonParam doubles) → RecordsType → ℕ → RecordsType
  add_parameter params records address = elim (find_param records (base (params address)).code) [
    | none ↦ ((base (params address)).code, address) ∷ records
    | some other ↦ records
  ]

  -- A method of the parameter with the code of a descriptor.
  unfoldable pub with_param :
      (MonParam doubles → Result (MonParam doubles))
      → (ℕ → MonParam doubles)
      → RecordsType
      → MonParamDescriptor
      → Result (ℕ → MonParam doubles)
  with_param method params records descriptor = elim (find_param records descriptor.code) [
    | none ↦ aborted
    | some address ↦ method (params address) >>= λ p. ok (λ a. if a == address then p else params a)
  ]

  abbrev pub increment :
      (ℕ → MonParam doubles) → RecordsType → MonParamDescriptor → ℤ → Result (ℕ → MonParam doubles)
  increment params records descriptor step =
      with_param (λ p. Records.increment p step) params records descriptor

  abbrev pub set_int :
      (ℕ → MonParam doubles) → RecordsType → MonParamDescriptor → ℤ → Result (ℕ → MonParam doubles)
  set_int params records descriptor value =
      with_param (λ p. Records.set_int p value) params records descriptor

  abbrev pub set_double :
      (ℕ → MonParam doubles)
      → RecordsType
      → MonParamDescriptor
      → Double
      → Result (ℕ → MonParam doubles)
  set_double params records descriptor value =
      with_param (λ p. Records.set_double p value) params records descriptor

  abbrev pub update :
      (ℕ → MonParam doubles) → RecordsType → MonParamDescriptor → ℤ → Result (ℕ → MonParam doubles)
  update params records descriptor now =
      with_param (λ p. Records.update p now) params records descriptor
