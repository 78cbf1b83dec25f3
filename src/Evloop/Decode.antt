-- ===== src/Evloop/Decode.antt =====
-- Evloop.cpp: what `recv_cb` makes of the bytes of a message.
use teachserver.Base.{
  ℕ, ◌+◌, ◌-◌, ◌%◌, ◌≤◌, ◌<◌, ◌≡◌, ap, ◌∙◌, some, List, arith, length, get_u32, ltb, if◌then◌else◌,
}
use teachserver.Single.{Single, Block, block, with_block}
use teachserver.Room.Score.{as_bytes}
use teachserver.Server.{Server, with_single}
use teachserver.Evloop.{raw, of_raw, put_bytes, store, body_length}

-- The memory after bytes were stored.
abbrev pub stored : ℕ → ℕ → List ℕ → Server → Server
stored p o cs w = with_single (with_block p (of_raw (put_bytes o cs (raw (block p w.single))))) w

pub store_fits :
    (p o : ℕ) (cs : List ℕ) (w : Server)
    → o + length cs ≤ (w.single.bufs p).size
    → store p o cs w ≡ some (stored p o cs w)
unfolding store
store_fits p o cs w h = ground arith

block-with_block : (p : ℕ) (b : Block) (s : Single) → block p (with_block p b s) ≡ b
block-with_block p b s = ground arith

block-stored :
    (p o : ℕ) (cs : List ℕ) (w : Server)
    → block p (stored p o cs w).single ≡ of_raw (put_bytes o cs (raw (block p w.single)))
block-stored p o cs w =
    block-with_block p (of_raw (put_bytes o cs (raw (block p w.single)))) w.single

get_u32-raw : (b : Block) → get_u32 (raw b) 0 ≡ b.c_len % 4294967296
unfolding get_u32 raw
get_u32-raw b = ground arith

-- A word inside the bytes that were put, and one before them.
get_u32-put_bytes :
    (o : ℕ) (cs : List ℕ) (m : ℕ → ℕ)
    → 4 ≤ length cs
    → get_u32 (put_bytes o cs m) o ≡ get_u32 (as_bytes cs) 0
unfolding get_u32 put_bytes
get_u32-put_bytes o cs m h = ground arith

get_u32-put_bytes_below : (cs : List ℕ) (m : ℕ → ℕ) → get_u32 (put_bytes 4 cs m) 0 ≡ get_u32 m 0
unfolding get_u32 put_bytes
get_u32-put_bytes_below cs m = ground arith

raw_body : (i : ℕ) (b : Block) → raw b (i + 8) ≡ b.body i
unfolding raw
raw_body i b = ground arith

put_bytes_above : (o j : ℕ) (cs : List ℕ) (m : ℕ → ℕ) → o + length cs ≤ j → put_bytes o cs m j ≡ m j
unfolding put_bytes
put_bytes_above o j cs m h = ground arith

put_bytes_at :
    (i : ℕ) (cs : List ℕ) (m : ℕ → ℕ)
    → put_bytes 4 cs m (i + 8)
      ≡ (if ltb (i + 4) (length cs) then as_bytes cs (i + 4) else m (i + 8))
unfolding put_bytes
put_bytes_at i cs m = ground arith

pub body_length_of : (n : ℕ) → 4 ≤ n → n < 2147483648 → body_length n ≡ n - 4
unfolding body_length
body_length_of n h small = ground arith

-- The block after the length word and then the rest were stored.
module _ (p : ℕ) (h b : List ℕ) (w : Server) where
  abbrev pub both : Server
  both = stored p 4 b (stored p 0 h w)

  pub first_len : 4 ≤ length h → (block p (stored p 0 h w).single).c_len ≡ get_u32 (as_bytes h) 0
  unfolding of_raw
  first_len e =
      ap (λ (x : Block). x.c_len) (block-stored p 0 h w)
      ∙ get_u32-put_bytes 0 h (raw (block p w.single)) e

  both_block :
      block p both.single
      ≡ of_raw (put_bytes 4 b (raw (of_raw (put_bytes 0 h (raw (block p w.single))))))
  both_block =
      block-stored p 4 b (stored p 0 h w)
      ∙ ap (λ (x : Block). of_raw (put_bytes 4 b (raw x))) (block-stored p 0 h w)

  pub both_len : 4 ≤ length h → (block p both.single).c_len ≡ get_u32 (as_bytes h) 0 % 4294967296
  unfolding of_raw
  both_len e =
      ap (λ (x : Block). x.c_len) both_block
      ∙ get_u32-put_bytes_below b _
      ∙ get_u32-raw _
      ∙ ap (λ n. n % 4294967296) (get_u32-put_bytes 0 h (raw (block p w.single)) e)

  pub both_type : 4 ≤ length b → (block p both.single).c_type ≡ get_u32 (as_bytes b) 0
  unfolding of_raw
  both_type e = ap (λ (x : Block). x.c_type) both_block ∙ get_u32-put_bytes 4 b _ e

  pub both_body :
      (i : ℕ)
      → length h ≡ 4
      → (block p both.single).body i
        ≡ (if ltb (i + 4) (length b) then as_bytes b (i + 4) else (block p w.single).body i)
  unfolding of_raw
  both_body i e =
      let m = raw (block p w.single) in
      let under =
        raw_body i (of_raw (put_bytes 0 h m))
        ∙ put_bytes_above 0 (i + 8) h m (omega (arith, e))
        ∙ raw_body i (block p w.single) in
      ap (λ (x : Block). x.body i) both_block
      ∙ put_bytes_at i b (raw (of_raw (put_bytes 0 h m)))
      ∙ ap (λ (old : ℕ). if ltb (i + 4) (length b) then as_bytes b (i + 4) else old) under
