-- ===== src/Messaging/Words.antt =====
-- The header of an envelope: `int` fields in the bytes of its block. The processor is big-endian.
use ece_354_real_time_operat.Base.{
  ℕ, ◌+◌, ◌*◌, ◌/◌, ◌%◌, ◌^◌, ◌<◌, ◌≡◌, refl, arith, ◌==◌, if◌then◌else◌, update, leb, ltb, true,
  false, ◌&&◌, ◌||◌,
}
use ece_354_real_time_operat.Memory.State.{Memory}

abbrev pub tx : ℕ
tx = 0

abbrev pub rx : ℕ
rx = 4

abbrev pub type : ℕ
type = 8

abbrev pub send_time : ℕ
send_time = 12

unfoldable pub load_word : (ℕ → ℕ) → ℕ → ℕ
load_word bytes a = ((bytes a * 256 + bytes (a + 1)) * 256 + bytes (a + 2)) * 256 + bytes (a + 3)

unfoldable pub store_word : ℕ → ℕ → (ℕ → ℕ) → ℕ → ℕ
store_word a v bytes =
    update
      (update (update (update bytes a (v / 2 ^ 24 % 256)) (a + 1) (v / 2 ^ 16 % 256)) (a + 2)
        (v / 2 ^ 8 % 256))
      (a + 3) (v % 256)

-- `envelope->field`, and a write to it.
unfoldable pub get_field : ℕ → ℕ → Memory → ℕ
unfolding load_word
get_field envelope field m = load_word m.bytes (envelope + field)

unfoldable pub set_field : ℕ → ℕ → ℕ → Memory → Memory
set_field envelope field v m = record m { bytes = store_word (envelope + field) v m.bytes }

store_word_lem :
    (a v : ℕ) (bytes : ℕ → ℕ) (b : ℕ)
    → store_word a v bytes b ≡ (
        if a + 3 == b
        then v % 256
        else if a + 2 == b
        then v / 2 ^ 8 % 256
        else if a + 1 == b
        then v / 2 ^ 16 % 256
        else if a == b
        then v / 2 ^ 24 % 256
        else bytes b)
unfolding store_word
store_word_lem a v bytes b = refl

pub load_word-store_word :
    (a v : ℕ) (bytes : ℕ → ℕ) → v < 2 ^ 32 → load_word (store_word a v bytes) a ≡ v
unfolding load_word
load_word-store_word a v bytes small = ground (
  arith,
  store_word_lem a v bytes a,
  store_word_lem a v bytes (a + 1),
  store_word_lem a v bytes (a + 2),
  store_word_lem a v bytes (a + 3),
)

-- A write leaves the bytes outside of the word.
pub store_word_outside :
    (a v : ℕ) (bytes : ℕ → ℕ) (b : ℕ)
    → (leb a b && ltb b (a + 4)) ≡ false
    → store_word a v bytes b ≡ bytes b
store_word_outside a v bytes b out = ground (arith, store_word_lem a v bytes b)

pub load_word-other :
    (a v : ℕ) (bytes : ℕ → ℕ) (b : ℕ)
    → (leb (b + 4) a || leb (a + 4) b) ≡ true
    → load_word (store_word a v bytes) b ≡ load_word bytes b
unfolding load_word
load_word-other a v bytes b out = ground (
  arith,
  store_word_outside a v bytes b,
  store_word_outside a v bytes (b + 1),
  store_word_outside a v bytes (b + 2),
  store_word_outside a v bytes (b + 3),
)
