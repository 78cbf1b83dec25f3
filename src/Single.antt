-- ===== src/Single.antt =====
-- Single.h, Buf.h, PoolT.h, QueueT.h: the buffers, the pool that owns them and the two queues.
-- A pointer is an address, 0 is NULL. A `Buf` object and the memory behind its `ptr_` are apart, since
-- two objects can come to share one memory. That memory is a `MSG_HEAD` and the bytes behind it;
-- `none` marks undefined behaviour (a NULL that is read, a copy past the end of an object).
pub mod Ledger
pub mod Clean
pub mod Spare
use teachserver.Base.{
  ℕ, ◌+◌, ◌-◌, ◌*◌, ◌/◌, ◌%◌, ◌^◌, Option, none, some, List, [], ◌∷◌, update, copy_bytes, leb, ltb,
  if◌then◌else◌,
}
use teachserver.QueueT.{enqueue}
use teachserver.Protocol.{CommandType, code, msg_head_len}

abbrev pub null : ℕ
null = 0

-- sizeof (Buf): two pointers' worth of sizes behind the pointer, then the two ints.
abbrev pub buf_object_len : ℕ
buf_object_len = 32

pub record Buf : Type 0 where
  pub ptr : ℕ
  pub size : ℕ
  pub used : ℕ
  pub fd : ℕ
  pub id : ℕ

pub record Block : Type 0 where
  pub c_len : ℕ
  pub c_type : ℕ
  -- the bytes behind the head, by their offset from `cData ()`
  pub body : ℕ → ℕ

pub record Single : Type 0 where
  pub bufs : ℕ → Buf
  pub blocks : ℕ → Block
  pub bufpool : List ℕ
  pub recvqueue : List ℕ
  pub sendqueue : List ℕ

abbrev pub get_fd : ℕ → Single → ℕ
get_fd p s = (s.bufs p).fd

-- What `p->ptr ()` points to.
abbrev pub block : ℕ → Single → Block
block p s = s.blocks (s.bufs p).ptr

unfoldable pub set_fd : ℕ → ℕ → Single → Single
set_fd p fd s = record s { bufs = update s.bufs p (record (s.bufs p) { fd = fd }) }

unfoldable pub set_size : ℕ → ℕ → Single → Single
set_size p n s = record s { bufs = update s.bufs p (record (s.bufs p) { used = n }) }

abbrev pub with_block : ℕ → Block → Single → Single
with_block p b s = record s { blocks = update s.blocks (s.bufs p).ptr b }

unfoldable pub set_len : ℕ → ℕ → Single → Single
set_len p n s = with_block p (record (block p s) { c_len = n }) s

unfoldable pub set_type : ℕ → ℕ → Single → Single
set_type p t s = with_block p (record (block p s) { c_type = t }) s

unfoldable pub reset : ℕ → Single → Single
reset p s = with_block p (record { c_len = 0; c_type = 0; body = λ _. 0 }) s

-- `memcpy` of n bytes to `cData ()`.
unfoldable pub write_data : ℕ → ℕ → (ℕ → ℕ) → Single → Option Single
write_data p n src s =
    if ltb (s.bufs p).size (msg_head_len + n)
    then none
    else some (with_block p (record (block p s) { body = copy_bytes n (block p s).body src }) s)

-- PoolT::malloc and PoolT::free.
unfoldable pub pool_malloc : Single → ℕ × Single
pool_malloc s = elim s.bufpool [ [] ↦ (null, s) | p ∷ rest ↦ (p, record s { bufpool = rest }) ]

unfoldable pub pool_free : ℕ → Single → Single
unfolding enqueue
pool_free p s = record s { bufpool = enqueue p s.bufpool }

unfoldable pub send_enqueue : ℕ → Single → Single
unfolding enqueue
send_enqueue p s = record s { sendqueue = enqueue p s.sendqueue }

unfoldable pub recv_enqueue : ℕ → Single → Single
unfolding enqueue
recv_enqueue p s = record s { recvqueue = enqueue p s.recvqueue }

-- A field of w bytes at offset o, after `memcpy` of n bytes of the whole object.
unfoldable pub copy_field : ℕ → ℕ → ℕ → ℕ → ℕ → ℕ
copy_field n o w dst src =
    if leb (o + w) n
    then src
    else if leb n o
    then dst
    else dst / 256 ^ (n - o) * 256 ^ (n - o) + src % 256 ^ (n - o)

-- `memcpy (dst, src, n)` where dst and src are `Buf*` themselves: it copies the objects' fields.
unfoldable pub copy_object : ℕ → ℕ → ℕ → Single → Option Single
unfolding copy_field
copy_object dst src n s =
    let d = s.bufs dst in
    let o = s.bufs src in
    if ltb buf_object_len n
    then none
    else some (record s {
      bufs = update s.bufs dst (record {
        ptr = copy_field n 0 8 d.ptr o.ptr;
        size = copy_field n 8 8 d.size o.size;
        used = copy_field n 16 8 d.used o.used;
        fd = copy_field n 24 4 d.fd o.fd;
        id = copy_field n 28 4 d.id o.id;
      });
    })
