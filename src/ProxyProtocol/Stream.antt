-- ===== src/ProxyProtocol/Stream.antt =====
-- The byte stream under the parser (`AsyncRead`), and the wrapper that puts bytes back.
use oxi_gate.Base.{
  ℕ, zero, suc, ◌+◌, ◌-◌, Text, leb, ltb, min, if◌then◌else◌, List, [], ◌∷◌, ◌++◌, length, take,
  drop, Result, ok, err, ◌>>=◌,
}

pub data Event : Type 0 where
  chunk : Text → Event
  failure : Event

abbrev pub Stream : Type 0
Stream = List Event

pub data Error : Type 0 where
  io eof header_too_long malformed unsupported_family : Error

-- `read(&mut buf)` for a buffer of n bytes; what is left of a chunk is the next one.
unfoldable pub read : ℕ → Stream → Result Error (Text × Stream)
read n [] = ok ([], [])
read n (failure ∷ events) = err io
read n (chunk bytes ∷ events) =
    if leb (length bytes) n
    then ok (bytes, events)
    else ok (take n bytes, chunk (drop n bytes) ∷ events)

-- The bytes that are still to come, up to an error.
unfoldable pub bytes_of : Stream → Text
bytes_of [] = []
bytes_of (failure ∷ events) = []
bytes_of (chunk bytes ∷ events) = bytes ++ bytes_of events

-- `PrefixedStream`: `prefix_pos` is how much of the prefix was read.
pub record PrefixedStream : Type 0 where
  pub inner : Stream
  pub prefix : Text
  pub prefix_pos : ℕ

unfoldable pub new : Stream → Text → PrefixedStream
new inner prefix = record { inner = inner; prefix = prefix; prefix_pos = 0 }

-- `poll_read` into a buffer with n bytes of room.
unfoldable pub poll_read : PrefixedStream → ℕ → Result Error (Text × PrefixedStream)
unfolding read
poll_read s n =
    if ltb s.prefix_pos (length s.prefix)
    then (let rest = drop s.prefix_pos s.prefix in
        let k = min (length rest) n in ok (take k rest, record s { prefix_pos = s.prefix_pos + k }))
    else do (bytes, inner) ← read n s.inner; ok (bytes, record s { inner = inner })

-- All that the wrapper still delivers.
unfoldable pub remaining : PrefixedStream → Text
unfolding bytes_of
remaining s = drop s.prefix_pos s.prefix ++ bytes_of s.inner

-- `read_exact(&mut buf)` for n bytes: an early end of the stream is an error.
unfoldable pub read_exact : ℕ → Stream → Result Error (Text × Stream)
read_exact zero events = ok ([], events)
read_exact (suc n) [] = err eof
read_exact (suc n) (failure ∷ events) = err io
read_exact (suc n) (chunk [] ∷ events) = err eof
read_exact (suc n) (chunk (b ∷ bytes) ∷ events) =
    let rest = read_exact (n - length bytes) events in
    if leb (length bytes) n
    then (do (more, events') ← rest; ok (b ∷ bytes ++ more, events'))
    else ok (b ∷ take n bytes, chunk (drop n bytes) ∷ events)
