-- ===== src/Binary/RoundTrip.antt =====
-- What BigEndian writes is read back.
use kage.Prelude.{ℕ, ◌/◌, ◌%◌, ◌≡◌, refl, ◌++◌, arith, Bytes, IsByte, All, length}
use kage.Binary.{put_uint16, put_uint32, put_uint64, uint16, uint32, uint64}

pub uint16-put_uint16 : (v : ℕ) (rest : Bytes) → uint16 (put_uint16 v ++ rest) ≡ v % 0x1_0000
unfolding put_uint16 uint16
uint16-put_uint16 v rest = omega arith

pub uint32-put_uint32 : (v : ℕ) (rest : Bytes) → uint32 (put_uint32 v ++ rest) ≡ v % 0x1_0000_0000
unfolding put_uint32 uint32
uint32-put_uint32 v rest =
    omega (arith, uint16-put_uint16 (v / 0x1_0000) rest, uint16-put_uint16 v rest)

pub uint64-put_uint64 :
    (v : ℕ) (rest : Bytes) → uint64 (put_uint64 v ++ rest) ≡ v % 0x1_0000_0000_0000_0000
unfolding put_uint64 uint64
uint64-put_uint64 v rest =
    omega (arith, uint32-put_uint32 (v / 0x1_0000_0000) rest, uint32-put_uint32 v rest)

pub put_uint16-IsByte : (v : ℕ) → All IsByte (put_uint16 v)
unfolding put_uint16
put_uint16-IsByte v = omega arith

pub put_uint32-IsByte : (v : ℕ) → All IsByte (put_uint32 v)
unfolding put_uint32
put_uint32-IsByte v = omega arith

pub put_uint64-IsByte : (v : ℕ) → All IsByte (put_uint64 v)
unfolding put_uint64
put_uint64-IsByte v = omega arith

pub length-put_uint16 : (v : ℕ) → length (put_uint16 v) ≡ 2
unfolding put_uint16
length-put_uint16 v = refl

pub length-put_uint32 : (v : ℕ) → length (put_uint32 v) ≡ 4
unfolding put_uint32
length-put_uint32 v = refl

pub length-put_uint64 : (v : ℕ) → length (put_uint64 v) ≡ 8
unfolding put_uint64
length-put_uint64 v = refl
