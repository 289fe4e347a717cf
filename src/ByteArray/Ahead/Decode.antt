-- ===== src/ByteArray/Ahead/Decode.antt =====
-- ReadUint32 and ReadUint64 (gudov/bytearray.cpp) on what WriteUint32 and WriteUint64 wrote.
use gudov.Common.{
  ℕ, zero, suc, ◌+◌, ◌*◌, ◌/◌, ◌%◌, ◌^◌, ◌≤◌, ◌<◌, ◌≡◌, refl, ap, sym, subst, ◌∙◌, arith,
}
use gudov.Common.{
  List, [], ◌∷◌, ◌++◌, map, length, some, bit_or, bit_and, ltb, ltb→lt, Bool-cases, inl, inr, false,
  append-nil,
}
use gudov.Common.{length-map}
use gudov.Common.Bits.{bit_and_low7}
use gudov.ByteArray.{Cell, ByteArray, Outcome, fault, wide_shift}
use gudov.ByteArray.Raw.{write}
use gudov.ByteArray.Values.{read_varint, read_uint32, read_uint64, write_uint32, write_uint64}
use gudov.ByteArray.File.{IsValid, File, view}
use gudov.ByteArray.Ahead.{Ahead, Reads, reads_as, Rewound, write-Rewound}
use gudov.ByteArray.Ahead.Varint.{groups, round_last, round_more, round_wide, read_fuint8-Reads}
use gudov.ByteArray.Ahead.Varint.{reads_then, add_group, add_top_group, pow_add7}
use gudov.ByteArray.Ahead.Varint.{write_uint32-groups, write_uint64-groups}
use native.Mathlib.Nat.{div-add-mod, one-le-pow, pow-le-pow_right}

-- The lowest group and the rest, both from bit `i` on.
split_group : (v i : ℕ) → v * 2 ^ i ≡ v % 128 * 2 ^ i + v / 128 * 2 ^ (i + 7)
split_group v i =
    omega (
      arith,
      ap (λ (t : ℕ). t * 2 ^ i) (div-add-mod v 128),
      ap (λ (t : ℕ). v / 128 * t) (pow_add7 i),
    )

last_value :
    (j i acc v : ℕ)
    → i + 7 * j ≡ 28
    → acc < 2 ^ i
    → v < 128
    → bit_or acc (v * 2 ^ i % 2 ^ 32) ≡ (acc + v * 2 ^ i) % 2 ^ 32
last_value zero i acc v e small h =
    let at : i ≡ 28 = omega arith in
    let small28 : acc < 2 ^ 28 = subst (λ t. acc < 2 ^ t) at small in
    rw at (add_top_group acc v small28)
last_value (suc j) i acc v e small h =
    let (value, fits) = add_group i acc v (omega arith) small h in
    let top : 2 ^ (i + 7) ≤ 2 ^ 28 = pow-le-pow_right (omega arith) {j = 28} (omega arith) in
    value ∙ omega (arith, fits, top)

-- A first byte with its top bit set, and the rest of the number read from there.
decode_more :
    (v i acc fuel bits n : ℕ) (b : ByteArray) (mid rest : List Cell)
    → (h : IsValid b) → (a : Ahead (view b) (some (v % 128 + 128) ∷ mid)) → i ≤ 21
    → acc < 2 ^ i
    → i < bits
    → (let s = (read_fuint8-Reads b (v % 128 + 128) mid h a).state in
        let acc' = acc + v % 128 * 2 ^ i in
        Reads s
          (read_varint fuel bits (i + 7) acc' s)
          ((acc' + v / 128 * 2 ^ (i + 7)) % 2 ^ 32)
          n
          rest)
    → Reads b (read_varint (suc fuel) bits i acc b) ((acc + v * 2 ^ i) % 2 ^ 32) (suc n) rest
decode_more v i acc fuel bits n b mid rest h a low small wide ih =
    let x = v % 128 + 128 in
    let r = read_fuint8-Reads b x mid h a in
    let group : bit_and x 0x7f ≡ v % 128 = omega (arith, bit_and_low7 x) in
    let (value, fits) = add_group i acc (v % 128) low small (omega arith) in
    let step : read_varint (suc fuel) bits i acc b
        ≡ read_varint fuel bits (i + 7) (acc + v % 128 * 2 ^ i) r.state =
      round_more b x bits i acc fuel mid h a (omega arith) wide (omega arith)
      ∙ ap (λ g. read_varint fuel bits (i + 7) (bit_or acc (g * 2 ^ i % 2 ^ 32)) r.state) group
      ∙ ap (λ t. read_varint fuel bits (i + 7) t r.state) value in
    let total : (acc + v % 128 * 2 ^ i + v / 128 * 2 ^ (i + 7)) % 2 ^ 32
        ≡ (acc + v * 2 ^ i) % 2 ^ 32 =
      ap (λ t. t % 2 ^ 32) (omega (arith, split_group v i)) in
    let all = reads_then b x 1 n mid rest _ _ _ r ih in
    let count : 1 + n ≡ suc n = omega arith in reads_as all step total count

-- Five groups at most, the first at bit `i`: the value counts from there, cut to 32 bits.
decode_groups :
    (j fuel bits v i acc : ℕ) (b : ByteArray) (rest : List Cell)
    → IsValid b
    → v < 128 ^ suc j
    → i + 7 * j ≡ 28
    → acc < 2 ^ i
    → 28 < bits
    → j < fuel
    → Ahead (view b) (map some (groups j v) ++ rest)
    → Reads b
        (read_varint fuel bits i acc b)
        ((acc + v * 2 ^ i) % 2 ^ 32)
        (length (groups j v))
        rest
unfolding groups
decode_groups j zero bits v i acc b rest h small e fits wide enough a = absurd (omega arith)
decode_groups zero (suc fuel) bits v i acc b rest h small e fits wide enough a =
    subst (λ t. Reads b (read_varint (suc fuel) bits i acc b) t 1 rest)
      (last_value zero i acc v e fits small)
      (round_last b v bits i acc fuel rest h a small (omega arith) (omega arith))
decode_groups (suc j) (suc fuel) bits v i acc b rest h small e fits wide enough a =
    elim (Bool-cases (ltb v 128)) [
      | inl t ↦
          let a' : Ahead (view b) (some v ∷ rest) = rw t at a in
          rw t (
            subst (λ t. Reads b (read_varint (suc fuel) bits i acc b) t 1 rest)
              (last_value (suc j) i acc v e fits (ltb→lt v 128 t))
              (round_last b v bits i acc fuel rest h a' (ltb→lt v 128 t) (omega arith)
                (omega arith)))
      | inr t ↦
          let mid = map some (groups j (v / 128)) ++ rest in
          let a' : Ahead (view b) (some (v % 128 + 128) ∷ mid) = rw t at a in
          let r = read_fuint8-Reads b (v % 128 + 128) mid h a' in
          let (_, low) = add_group i acc (v % 128) (omega arith) fits (omega arith) in
          rw t (
            decode_more v i acc fuel bits (length (groups j (v / 128))) b mid rest h a'
              (omega arith) fits (omega arith)
              (decode_groups j fuel bits (v / 128) (i + 7) (acc + v % 128 * 2 ^ i) r.state rest
                r.valid (omega arith) (omega arith) low wide (omega arith) r.ahead))
    ]

length-groups-le : (k v : ℕ) → (0 < length (groups k v)) × (length (groups k v) ≤ suc k)
unfolding groups
length-groups-le zero v = omega arith
length-groups-le (suc k) v = ground (arith, length-groups-le k (v / 128))

-- More room does not change the groups of a number that needs less.
groups_short : (k m v : ℕ) → v < 128 ^ suc k → k ≤ m → groups m v ≡ groups k v
unfolding groups
groups_short zero zero v h l = refl
groups_short zero (suc m) v h l = ground arith
groups_short (suc k) zero v h l = absurd (omega arith)
groups_short (suc k) (suc m) v h l = ground (arith, groups_short k m (v / 128) (omega arith))

put-Rewound :
    (b : ByteArray) (k v : ℕ) (out : Outcome (Unit {0}))
    → IsValid b
    → b.position + suc k + b.base_size < 2 ^ 64
    → suc k < 2 ^ 52
    → out ≡ write (map some (groups k v)) b
    → Rewound b out (map some (groups k v))
put-Rewound b k v out h room exact e =
    subst (λ t. Rewound b t (map some (groups k v))) (sym e)
      (write-Rewound b (map some (groups k v)) h
        (omega (arith, length-map some (groups k v), length-groups-le k v))
        (omega (arith, length-map some (groups k v), length-groups-le k v)))

-- The bytes that were put are what comes next, with nothing asked of what follows.
Ahead-all : (f : File) (xs : List Cell) → Ahead f xs → Ahead f (xs ++ [])
Ahead-all f xs a = rw append-nil a

-- ReadUint32 reads back every uint32_t that WriteUint32 wrote, and takes exactly its bytes: write a
-- number, go back to where it began, and read it. The object must be valid, with room below 2 ^ 64.
pub read_uint32-write_uint32 :
    (b : ByteArray) (v : ℕ)
    → IsValid b
    → v < 2 ^ 32
    → b.position + 5 + b.base_size < 2 ^ 64
    → (w : Rewound b (write_uint32 v b) (map some (groups 4 v))) × Reads w.state
        (read_uint32 w.state)
        v
        (length (groups 4 v))
        []
unfolding read_uint32
read_uint32-write_uint32 b v h small room =
    let w =
      put-Rewound b 4 v (write_uint32 v b) h room (omega arith) (write_uint32-groups v b small) in
    let r =
      decode_groups 4 6 32 v 0 0 w.state [] w.valid (omega arith) (omega arith) (omega arith)
        (omega arith) (omega arith) (Ahead-all (view w.state) (map some (groups 4 v)) w.ahead) in
    let value : (0 + v * 2 ^ 0) % 2 ^ 32 ≡ v = omega arith in (w, reads_as r refl value refl)

-- ReadUint64 gives back what WriteUint64 wrote only modulo 2 ^ 32: it casts each group to uint32_t
-- before the shift. Shown for a value below 2 ^ 35, written to a valid object and read from where it
-- began, with room below 2 ^ 64.
read_uint64-write_uint64 :
    (b : ByteArray) (v : ℕ)
    → IsValid b
    → v < 2 ^ 35
    → b.position + 10 + b.base_size < 2 ^ 64
    → (w : Rewound b (write_uint64 v b) (map some (groups 9 v))) × Reads w.state
        (read_uint64 w.state)
        (v % 2 ^ 32)
        (length (groups 9 v))
        []
unfolding read_uint64
read_uint64-write_uint64 b v h small room =
    let w =
      put-Rewound b 9 v (write_uint64 v b) h room (omega arith)
        (write_uint64-groups v b (omega arith)) in
    let short = groups_short 4 9 v (omega arith) (omega arith) in
    let a : Ahead (view w.state) (map some (groups 4 v) ++ []) =
      Ahead-all (view w.state) (map some (groups 4 v))
        (subst (λ t. Ahead (view w.state) (map some t)) short w.ahead) in
    let r =
      decode_groups 4 11 64 v 0 0 w.state [] w.valid (omega arith) (omega arith) (omega arith)
        (omega arith) (omega arith) a in
    let value : (0 + v * 2 ^ 0) % 2 ^ 32 ≡ v % 2 ^ 32 = omega arith in
    (w, reads_as r refl value (ap length (sym short)))

groups_cons : (k v : ℕ) → (x : ℕ) × (mid : List ℕ) × (groups k v ≡ x ∷ mid)
unfolding groups
groups_cons zero v = (v, [], refl)
groups_cons (suc k) v = elim (Bool-cases (ltb v 128)) [
  | inl t ↦ (v, [], rw t)
  | inr t ↦ (v % 128 + 128, groups k (v / 128), rw t)
]

-- A number with a sixth group makes the reader shift by 35.
decode_wide :
    (j k fuel bits v i acc : ℕ) (b : ByteArray) (rest : List Cell)
    → IsValid b
    → 128 ^ suc j ≤ v
    → j < k
    → i + 7 * j ≡ 28
    → 35 < bits
    → suc j < fuel
    → Ahead (view b) (map some (groups k v) ++ rest)
    → read_varint fuel bits i acc b ≡ fault wide_shift
unfolding groups
decode_wide j zero fuel bits v i acc b rest h big deep e wide enough a = absurd (omega arith)
decode_wide j (suc k) zero bits v i acc b rest h big deep e wide enough a = absurd (omega arith)
decode_wide zero (suc k) (suc zero) bits v i acc b rest h big deep e wide enough a =
    absurd (omega arith)
decode_wide zero (suc k) (suc (suc fuel)) bits v i acc b rest h big deep e wide enough a =
    let t : ltb v 128 ≡ false = ground arith in
    let mid = map some (groups k (v / 128)) ++ rest in
    let a' : Ahead (view b) (some (v % 128 + 128) ∷ mid) = rw t at a in
    let r = read_fuint8-Reads b (v % 128 + 128) mid h a' in
    let (x, more, c) = groups_cons k (v / 128) in
    let a'' : Ahead (view r.state) (some x ∷ (map some more ++ rest)) =
      subst (λ t. Ahead (view r.state) (map some t ++ rest)) c r.ahead in
    round_more b _ bits i acc (suc fuel) mid h a' (omega arith) (omega arith) (omega arith)
    ∙ round_wide r.state x bits (i + 7) _ fuel (map some more ++ rest) r.valid a'' (omega arith)
        (omega arith)
decode_wide (suc j) (suc k) (suc fuel) bits v i acc b rest h big deep e wide enough a =
    let t : ltb v 128 ≡ false = ground (arith, one-le-pow (suc j) 128) in
    let mid = map some (groups k (v / 128)) ++ rest in
    let a' : Ahead (view b) (some (v % 128 + 128) ∷ mid) = rw t at a in
    let r = read_fuint8-Reads b (v % 128 + 128) mid h a' in
    round_more b _ bits i acc fuel mid h a' (omega arith) (omega arith) (omega arith)
    ∙ decode_wide j k fuel bits (v / 128) (i + 7) _ r.state rest r.valid (omega arith) (omega arith)
        (omega arith) wide (omega arith) r.ahead

-- From 2 ^ 35 on ReadUint64 runs into an undefined shift on what WriteUint64 wrote to a valid object,
-- with room below 2 ^ 64.
pub read_uint64_undefined :
    (b : ByteArray) (v : ℕ)
    → IsValid b
    → 2 ^ 35 ≤ v
    → v < 2 ^ 64
    → b.position + 10 + b.base_size < 2 ^ 64
    → (w : Rewound b (write_uint64 v b) (map some (groups 9 v))) × (read_uint64 w.state
        ≡ fault wide_shift)
unfolding read_uint64
read_uint64_undefined b v h big small room =
    let w =
      put-Rewound b 9 v (write_uint64 v b) h room (omega arith) (write_uint64-groups v b small) in
    (
      w,
      decode_wide 4 9 11 64 v 0 0 w.state [] w.valid (omega arith) (omega arith) (omega arith)
          (omega arith) (omega arith) (Ahead-all (view w.state) (map some (groups 9 v)) w.ahead),
    )
