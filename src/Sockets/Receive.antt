-- ===== src/Sockets/Receive.antt =====
-- What `readsocketfromts` gives to `demux`.
use av3_fc.Base.Int.{pos}
use av3_fc.Base.{
  ℕ, suc, ◌≤◌, Bool, true, false, ◌&&◌, List, [], ◌∷◌, ◌++◌, ◌≡◌, refl, sym, ap, ◌∙◌, arith, All,
  length, ◌==◌, zero,
}
use av3_fc.Time.{Timespec}
use av3_fc.Sockets.{
  Received, count, ControlMessage, SocketConstants, ReceivedMessage, readsocketfromts,
  read_timestamps, classify,
}

-- The last time stamp among some control messages, if there is one.
abbrev pub is_timestamp : SocketConstants → ControlMessage → Bool
is_timestamp k c = c.cmsg_level == k.sol_socket && c.cmsg_type == k.so_timestampns

-- What the manual says of `recvmsg` on a buffer of `size` bytes: it writes no more than that.
pub record IsReceived (size : ℕ) (m : ReceivedMessage) : Type 0 where
  pub size_lem : length m.buffer ≡ size
  pub in_buffer : (n : ℕ) → m.rc ≡ count n → n ≤ size

read_timestamps_none :
    (k : SocketConstants) (cs : List ControlMessage) (ts : Timespec)
    → All (λ c. is_timestamp k c ≡ false) cs
    → read_timestamps k cs ts ≡ ts
unfolding read_timestamps
read_timestamps_none k [] ts h = refl
read_timestamps_none k (c ∷ cs) ts (h, hs) =
    rw (read_timestamps, h) (read_timestamps_none k cs ts hs)

read_timestamps_last :
    (k : SocketConstants) (earlier : List ControlMessage) (c : ControlMessage)
    (later : List ControlMessage) (ts : Timespec)
    → is_timestamp k c ≡ true
    → All (λ x. is_timestamp k x ≡ false) later
    → read_timestamps k (earlier ++ c ∷ later) ts ≡ c.time
unfolding read_timestamps
read_timestamps_last k [] c later ts h hs =
    rw (read_timestamps, h) (read_timestamps_none k later c.time hs)
read_timestamps_last k (x ∷ earlier) c later ts h hs = read_timestamps_last k earlier c later _ h hs

-- Whatever else the control messages hold, `readsocketfromts` gives the number of bytes and the last
-- time stamp among them.
pub readsocketfromts_last :
    (k : SocketConstants) (m : ReceivedMessage) (n : ℕ) (earlier : List ControlMessage)
    (c : ControlMessage) (later : List ControlMessage) (ts : Timespec)
    → m.rc ≡ count (suc n)
    → m.control ≡ earlier ++ c ∷ later
    → is_timestamp k c ≡ true
    → All (λ x. is_timestamp k x ≡ false) later
    → readsocketfromts k m ts ≡ (pos (suc n), c.time)
unfolding readsocketfromts
readsocketfromts_last k m n earlier c later ts r e h hs =
    rw (r, e) (ap (λ t. (pos (suc n), t)) (read_timestamps_last k earlier c later ts h hs))

-- All three functions read a result in the same way.
pub readsocketfromts-classify :
    (k : SocketConstants) (m : ReceivedMessage) (ts : Timespec)
    → (readsocketfromts k m ts).0 ≡ classify m.rc
unfolding readsocketfromts classify
readsocketfromts-classify k m ts = ground arith

classify-count : (r : Received) (n : ℕ) → classify r ≡ pos (suc n) → r ≡ count (suc n)
unfolding classify
classify-count r n e = ground arith

-- So a positive result is a number of bytes that were written into the buffer.
pub readsocketfromts_count :
    (k : SocketConstants) (size : ℕ) (m : ReceivedMessage) (ts : Timespec) (n : ℕ)
    → IsReceived size m
    → (readsocketfromts k m ts).0 ≡ pos n
    → n ≤ size
readsocketfromts_count k size m ts zero h e = omega arith
readsocketfromts_count k size m ts (suc n) h e =
    h.in_buffer (suc n) (classify-count m.rc n (sym (readsocketfromts-classify k m ts) ∙ e))
