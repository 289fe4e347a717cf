-- ===== src/ByteArray/File.antt =====
-- What a ByteArray (gudov/bytearray.cpp) promises: it is a sequence of bytes with one position. The
-- view forgets the blocks; `IsValid` is what every operation keeps.
pub mod Capacity
pub mod Write
pub mod Read
pub mod Position
pub mod Cases
use gudov.Common.{ℕ, zero, suc, ◌+◌, ◌*◌, ◌^◌, ◌≤◌, ◌<◌, ◌≡◌, List, [], ◌∷◌}
use gudov.Common.{length, take, drop, All}
use gudov.ByteArray.{Cell, ByteArray}
use gudov.ByteArray.Blocks.{IsBlock, flat}
use gudov.ByteArray.CursorLaws.{CurAt}

pub record IsValid (b : ByteArray) : Type 0 where
  pub base_pos : 0 < b.base_size
  pub blocks : All (IsBlock b.base_size) b.nodes
  pub some_block : 0 < length b.nodes
  pub capacity_lem : b.capacity ≡ length b.nodes * b.base_size
  pub fits : b.capacity < 2 ^ 64
  pub at : CurAt b.base_size (length b.nodes) b.cur b.position
  pub position-le-size : b.position ≤ b.size
  pub size-le-capacity : b.size ≤ b.capacity

-- The bytes up to `size_`, and the position in them.
pub record File : Type 0 where
  pub bytes : List Cell
  pub position : ℕ

pub File-eq :
    {xs ys : List Cell} {p q : ℕ}
    → xs ≡ ys
    → p ≡ q
    → ◌≡◌ {A = File} (record { bytes = xs; position = p }) (record { bytes = ys; position = q })
File-eq e d = λ i. record { bytes = e i; position = d i }

unfoldable pub view : ByteArray → File
view b = record { bytes = take b.size (flat b.nodes); position = b.position }

-- Bytes k, k + 1, … replaced, and put behind the end where that is reached.
unfoldable pub splice {ℓ} : {A : Type ℓ} → List A → ℕ → List A → List A
splice [] k bs = bs
splice (x ∷ xs) zero [] = x ∷ xs
splice (x ∷ xs) zero (b ∷ bs) = b ∷ splice xs zero bs
splice (x ∷ xs) (suc k) bs = x ∷ splice xs k bs

unfoldable pub file_write : List Cell → File → File
file_write buf f = record {
  bytes = splice f.bytes f.position buf;
  position = f.position + length buf;
}

unfoldable pub file_read : ℕ → File → List Cell
file_read size f = take size (drop f.position f.bytes)

-- A call that returned with the bytes of the file `f`; it leaves byte order and block size alone.
pub record Ends (b b' : ByteArray) (f : File) : Type 0 where
  pub valid : IsValid b'
  pub viewed : view b' ≡ f
  pub endian : b'.endian ≡ b.endian
  pub base_size : b'.base_size ≡ b.base_size
