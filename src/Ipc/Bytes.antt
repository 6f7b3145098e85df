-- ===== src/Ipc/Bytes.antt =====
-- Byte order: the host's little-endian memory, and the conversions of
-- DkmRtpIpc/src/dkmrtp_ipc.cpp. `htons` and `htonl` are POSIX's on a little-endian host.
use connext_triad.Prelude.{
  ℕ, zero, suc, ◌+◌, ◌*◌, ◌/◌, ◌%◌, ◌^◌, ◌<◌, ◌≡◌, refl, ap, ap₂, ◌∙◌, List, [], ◌∷◌, arith, All,
  length, ◌≤◌, take, drop, length-take, length-drop, All-take, All-drop,
}
use native.Mathlib.Nat.{pow-suc}

-- `memcpy` of an unsigned field of `n` bytes from the host's memory, and back.
abbrev pub store : ℕ → ℕ → List ℕ
store zero x = []
store (suc n) x = (x % 256) ∷ store n (x / 256)

abbrev pub fetch : List ℕ → ℕ
fetch [] = 0
fetch (b ∷ bs) = b + 256 * fetch bs

-- The value whose bytes are those of `x` in reverse order.
unfoldable pub htons : ℕ → ℕ
htons x = x / 256 % 256 + 256 * (x % 256)

unfoldable pub htonl : ℕ → ℕ
htonl x =
    x / 2 ^ 24 % 256 + 256 * (x / 2 ^ 16 % 256) + 2 ^ 16 * (x / 256 % 256) + 2 ^ 24 * (x % 256)

-- `(htonl(x & 0xFFFFFFFF) << 32) | htonl(x >> 32)`: the two halves do not overlap, so `|` adds.
unfoldable pub htonll : ℕ → ℕ
unfolding htonl
htonll x = htonl (x % 2 ^ 32) * 2 ^ 32 + htonl (x / 2 ^ 32 % 2 ^ 32)

pub htons-htons : (x : ℕ) → x < 2 ^ 16 → htons (htons x) ≡ x
unfolding htons
htons-htons x h = omega arith

pub htonl-htonl : (x : ℕ) → x < 2 ^ 32 → htonl (htonl x) ≡ x
unfolding htonl
htonl-htonl x h = omega arith

pub htonl-lt : (x : ℕ) → htonl x < 2 ^ 32
unfolding htonl
htonl-lt x = omega arith

pub htons-lt : (x : ℕ) → htons x < 2 ^ 16
unfolding htons
htons-lt x = omega arith

htonll_def : (x : ℕ) → htonll x ≡ htonl (x % 2 ^ 32) * 2 ^ 32 + htonl (x / 2 ^ 32 % 2 ^ 32)
unfolding htonll
htonll_def x = refl

pub htonll-lt : (x : ℕ) → htonll x < 2 ^ 64
htonll-lt x = omega (arith, htonll_def x, htonl-lt (x % 2 ^ 32), htonl-lt (x / 2 ^ 32 % 2 ^ 32))

htonll-low : (x : ℕ) → htonll x % 2 ^ 32 ≡ htonl (x / 2 ^ 32 % 2 ^ 32)
htonll-low x = omega (arith, htonll_def x, htonl-lt (x / 2 ^ 32 % 2 ^ 32))

htonll-high : (x : ℕ) → htonll x / 2 ^ 32 % 2 ^ 32 ≡ htonl (x % 2 ^ 32)
htonll-high x = omega (arith, htonll_def x, htonl-lt (x % 2 ^ 32), htonl-lt (x / 2 ^ 32 % 2 ^ 32))

pub htonll-htonll : (x : ℕ) → x < 2 ^ 64 → htonll (htonll x) ≡ x
htonll-htonll x h =
    htonll_def (htonll x)
    ∙ rw
        (
          htonll-low x,
          htonll-high x,
          htonl-htonl (x / 2 ^ 32 % 2 ^ 32) (omega arith),
          htonl-htonl (x % 2 ^ 32) (omega arith),
        )
        (omega arith)

pub fetch-store_2 : (x : ℕ) → x < 2 ^ 16 → fetch (store 2 x) ≡ x
fetch-store_2 x h = omega arith

pub fetch-store_4 : (x : ℕ) → x < 2 ^ 32 → fetch (store 4 x) ≡ x
fetch-store_4 x h = omega arith

pub fetch-store_8 : (x : ℕ) → x < 2 ^ 64 → fetch (store 8 x) ≡ x
fetch-store_8 x h = omega arith

abbrev pub AreBytes : List ℕ → Type 0
AreBytes = All λ b. b < 256

-- Bytes in memory are determined by the value that is fetched from them.
pub store-fetch : (bs : List ℕ) → AreBytes bs → store (length bs) (fetch bs) ≡ bs
store-fetch [] h = refl
store-fetch (b ∷ bs) (h, hs) =
    ap₂ ◌∷◌ (omega arith) (ap (store (length bs)) (omega arith) ∙ store-fetch bs hs)

fetch-lt : (n : ℕ) (bs : List ℕ) → AreBytes bs → length bs ≡ n → fetch bs < 256 ^ n
fetch-lt zero [] h e = omega arith
fetch-lt (suc n) [] h e = absurd (omega arith)
fetch-lt zero (b ∷ bs) h e = absurd (omega arith)
fetch-lt (suc n) (b ∷ bs) (h, hs) e = rw pow-suc (omega (arith, fetch-lt n bs hs (omega arith)))

-- A field that is read from the middle of a buffer: its bytes, and its range.
module _ (off n : ℕ) (bs : List ℕ) (h : AreBytes bs) (fits : off + n ≤ length bs) where
  field_length : length (take n (drop off bs)) ≡ n
  field_length = length-take n (drop off bs) (omega (arith, length-drop off bs))

  field_bytes : AreBytes (take n (drop off bs))
  field_bytes = All-take (λ b. b < 256) n (drop off bs) (All-drop (λ b. b < 256) off bs h)

  pub store-fetch_field : store n (fetch (take n (drop off bs))) ≡ take n (drop off bs)
  store-fetch_field = rw field_length at (store-fetch (take n (drop off bs)) field_bytes)

  pub fetch-lt_field : fetch (take n (drop off bs)) < 256 ^ n
  fetch-lt_field = fetch-lt n (take n (drop off bs)) field_bytes field_length
