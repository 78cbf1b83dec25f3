-- ===== src/Post/Records/Sent.antt =====
-- handler/HandleMessage.cpp: what one message of postDBRecord leaves.
use teachserver.Base.{ℕ, ◌+◌, ◌≡◌, ◌≢◌, ◌≤◌, some, List, ◌∷◌, arith, copy_bytes, put_u32}
use teachserver.Protocol.{msg_head_len, code}
use teachserver.Protocol.Command.{st_get_db_record_finished}
use teachserver.Single.{
  Single, null, block, with_block, set_fd, set_size, set_len, set_type, write_data, pool_malloc,
  send_enqueue,
}
use teachserver.Layout.{Field, put_fields, size_of}
use teachserver.Post.Students.{Round}
use teachserver.Post.Records.{send_record, send_finished}

module _ (q len t : ℕ) (qs : List ℕ) (s : Single) where
  -- The buffer with its head, and then with the bytes behind it.
  abbrev headed : Single
  unfolding set_type set_len
  headed = set_type q t (set_len q len (record s { bufpool = qs }))

  abbrev filled : ℕ → (ℕ → ℕ) → Single
  filled n bytes =
      with_block q (record (block q headed) { body = copy_bytes n (block q headed).body bytes })
        headed

  pub sent : ℕ → ℕ → (ℕ → ℕ) → Single
  sent fd n bytes = send_enqueue q (set_size q len (set_fd q fd (filled n bytes)))

  write_data-filled :
      (n : ℕ) (bytes : ℕ → ℕ)
      → (s.bufs q).size ≡ 5120
      → msg_head_len + n ≤ 5120
      → write_data q n bytes headed ≡ some (filled n bytes)
  unfolding write_data set_type set_len
  write_data-filled n bytes size fits = ground arith

module _ (q t fd n : ℕ) (qs : List ℕ) (s : Single) (bytes : ℕ → ℕ) where
  pub Round-sent :
      Round (msg_head_len + n) t fd q qs bytes s (sent q (msg_head_len + n) t qs s fd n bytes)
  unfolding sent set_type set_len set_fd set_size send_enqueue copy_bytes
  Round-sent = record {
    bufpool = ground arith;
    sendqueue = ground arith;
    recvqueue = ground arith;
    memory = record { ptrs = λ r. ground arith; sizes = λ r. ground arith };
    copy = record {
      receiver = ground arith;
      used = ground arith;
      c_len = ground arith;
      c_type = ground arith;
      bytes = λ i h. ground arith;
    };
    other_bufs = λ r h. ground arith;
    other_blocks = λ a h. ground arith;
  }

pub send_record-sent :
    (stack : ℕ → ℕ) (fd t : ℕ) (fields : List Field) (s : Single) (q : ℕ) (qs : List ℕ)
    (bytes : ℕ → ℕ)
    → put_fields stack 0 fields ≡ some bytes
    → s.bufpool ≡ q ∷ qs
    → q ≢ null
    → (s.bufs q).size ≡ 5120
    → msg_head_len + size_of fields ≤ 5120
    → send_record stack fd t fields s
      ≡ some (sent q (msg_head_len + size_of fields) t qs s fd (size_of fields) bytes)
unfolding send_record pool_malloc sent
send_record-sent stack fd t fields s q qs bytes e pool nn size fits = ground (
  arith,
  write_data-filled q (msg_head_len + size_of fields) t qs s (size_of fields) bytes size fits,
)

pub send_finished-sent :
    (flag fd : ℕ) (s : Single) (q : ℕ) (qs : List ℕ)
    → s.bufpool ≡ q ∷ qs
    → q ≢ null
    → (s.bufs q).size ≡ 5120
    → send_finished flag fd s
      ≡ some (
          sent q
            (msg_head_len + 4)
            (code st_get_db_record_finished)
            qs
            s
            fd
            4
            (put_u32 (λ _. 0) 0 flag))
unfolding send_finished pool_malloc sent
send_finished-sent flag fd s q qs pool nn size = ground (
  arith,
  write_data-filled q (msg_head_len + 4) (code st_get_db_record_finished) qs s 4
      (put_u32 (λ _. 0) 0 flag) size (omega arith),
)
