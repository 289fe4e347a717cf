-- ===== src/ByteArray.antt =====
-- gudov/bytearray.h: the state of a ByteArray, and how a call of one ends.
-- `root_` is index 0 of `nodes`; `cur_` is an index, and `none` is nullptr.
pub mod Cursor
pub mod Raw
pub mod Blocks
pub mod CursorLaws
pub mod WriteLoop
pub mod ReadLoop
pub mod File
pub mod Values
pub mod Ahead
pub mod Tests
use gudov.Common.{ℕ, Option, List}

-- A byte of memory; `none` is one that was never written.
abbrev pub Cell : Type 0
Cell = Option ℕ

pub data Endian : Type 0 where
  little big : Endian

-- ByteArray::Node. Its `next` is the next list entry.
pub record Node : Type 0 where
  pub ptr : List Cell
  pub size : ℕ

pub record ByteArray : Type 0 where
  pub base_size : ℕ
  pub position : ℕ
  pub capacity : ℕ
  pub size : ℕ
  pub endian : Endian
  pub nodes : List Node
  pub cur : Option ℕ

-- What C++ leaves undefined, and a loop that ran out of rounds in the model.
pub data Fault : Type 0 where
  null_deref out_of_bounds indeterminate wide_shift signed_overflow out_of_fuel : Fault

-- A call returns, or throws std::out_of_range, with the object as it is then; or it is undefined.
pub data Outcome {ℓ} (A : Type ℓ) : Type ℓ where
  ok : A → ByteArray → Outcome A
  throws : ByteArray → Outcome A
  fault : Fault → Outcome A

abbrev pub M {ℓ} : Type ℓ → Type ℓ
M A = ByteArray → Outcome A

infixl 5 ◌>>=◌ ◌>>◌
abbrev pub then_with {ℓ κ} : {A : Type ℓ} {B : Type κ} → Outcome A → (A → M B) → Outcome B
then_with (ok a b) f = f a b
then_with (throws b) f = throws b
then_with (fault e) f = fault e

abbrev pub ◌>>=◌ {ℓ κ} : {A : Type ℓ} {B : Type κ} → M A → (A → M B) → M B
◌>>=◌ m f b = then_with (m b) f

abbrev pub ◌>>◌ {ℓ} : {B : Type ℓ} → M (Unit {0}) → M B → M B
m >> k = m >>= λ _. k

abbrev pub return {ℓ} : {A : Type ℓ} → A → M A
return a b = ok a b

abbrev pub raise {ℓ} : {A : Type ℓ} → Fault → M A
raise e b = fault e
