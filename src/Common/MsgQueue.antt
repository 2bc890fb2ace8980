-- ===== src/Common/MsgQueue.antt =====
-- ue/hdr/common/msg_queue.h: the bounded queue of byte buffers between the layers. A buffer is a
-- value of type `A` with its `N_bytes`; what waits on a condition is `none`, a call that blocks.
-- Each operation runs under the queue's mutex, so a history is a sequence of operations.
pub mod Fifo
use srs_ue.Prelude.{
  ℕ, ◌+◌, ◌%◌, Bool, true, false, List, [], ◌∷◌, Option, none, some, ◌==◌, if◌then◌else◌, get_elem?,
  set, replicate, u32, sub_u32,
}

-- A slot of `buf` that was never written holds `none`.
pub record MsgQueue (A : Type 0) : Type 0 where
  pub buf : List (Option A)
  pub capacity : ℕ
  pub unread : ℕ
  pub unread_bytes : ℕ
  pub head : ℕ
  pub tail : ℕ

module _ {A : Type 0} where
  unfoldable pub new : ℕ → MsgQueue A
  new capacity = record {
    buf = replicate capacity none;
    capacity = capacity;
    unread = 0;
    unread_bytes = 0;
    head = 0;
    tail = 0;
  }

  unfoldable pub is_empty : MsgQueue A → Bool
  is_empty q = q.unread == 0

  unfoldable pub is_full : MsgQueue A → Bool
  is_full q = q.unread == q.capacity

  unfoldable pub size : MsgQueue A → ℕ
  size q = q.unread

  unfoldable pub size_bytes : MsgQueue A → ℕ
  size_bytes q = q.unread_bytes

module _ {A : Type 0} (n_bytes : A → ℕ) where
  unfoldable pub write : A → MsgQueue A → Option (MsgQueue A)
  unfolding is_full
  write msg q =
      if is_full q
      then none
      else some (record q {
        buf = set q.buf q.head (some msg);
        head = (q.head + 1) % q.capacity;
        unread = u32 (q.unread + 1);
        unread_bytes = u32 (q.unread_bytes + n_bytes msg);
      })

  -- What `read` and `try_read` do when there is a message; a slot without one is a fault, `none`.
  unfoldable pub take_tail : MsgQueue A → Option (A × MsgQueue A)
  take_tail q = elim (get_elem? q.buf q.tail) [
    | some (some msg) ↦ some (
      msg,
      record q {
        tail = (q.tail + 1) % q.capacity;
        unread = sub_u32 q.unread 1;
        unread_bytes = sub_u32 q.unread_bytes (n_bytes msg);
      },
    )
    | _ ↦ none
  ]

  -- `read` blocks on an empty queue.
  unfoldable pub read : MsgQueue A → Option (A × MsgQueue A)
  unfolding is_empty take_tail
  read q = if is_empty q then none else take_tail q

  -- `try_read` answers false, and leaves the queue, where `read` would block.
  pub data TryRead : Type 0 where
    nothing : TryRead
    message : A → MsgQueue A → TryRead
    fault : TryRead

  unfoldable pub try_read : MsgQueue A → TryRead
  unfolding is_empty take_tail
  try_read q =
      if is_empty q
      then nothing
      else elim (take_tail q) [ none ↦ fault | some (msg, q') ↦ message msg q' ]

  -- The length of the oldest message; a slot that holds none is a fault.
  unfoldable pub size_tail_bytes : MsgQueue A → Option ℕ
  size_tail_bytes q = elim (get_elem? q.buf q.tail) [
    | some (some msg) ↦ some (n_bytes msg)
    | _ ↦ none
  ]
