-- ===== src/Ipc/Messages.antt =====
-- Messages as `ipc_send` forms them.
use so.Base.{arith, ℕ, ◌<◌, ◌^◌, ◌≡◌, ◌≤◌, length, length-take, take}
use so.Actions.{Message, Send}

-- A message whose header fits its types and tells its length.
pub record IsMessage (m : Message) : Type 0 where
  pub sender_fits : m.sender < 2 ^ 16
  pub length_fits : m.content_length < 2 ^ 16
  pub exact : length m.content ≡ m.content_length

-- The message that the recipient gets for a call of `ipc_send` by the process `id`.
unfoldable pub deliver : ℕ → Send → Message
deliver id s = record { sender = id; content_length = s.size; content = take s.size s.message }

-- A call of `ipc_send` that stays in the memory at `message`, for a transport that carries `capacity` bytes.
pub record IsSend (capacity : ℕ) (s : Send) : Type 0 where
  pub size_fits : s.size < 2 ^ 16
  pub in_memory : s.size ≤ length s.message
  pub carried : s.size ≤ capacity

-- The number of a process, as its address.
abbrev pub IsAddress : ℕ → Type 0
IsAddress id = (0 < id) × (id < 2 ^ 16)

pub deliver-IsMessage :
    (capacity id : ℕ) (s : Send) → IsAddress id → IsSend capacity s → IsMessage (deliver id s)
unfolding deliver
deliver-IsMessage capacity id s a v = record {
  sender_fits = a.1;
  length_fits = v.size_fits;
  exact = omega (arith, length-take s.size s.message, v.in_memory);
}
