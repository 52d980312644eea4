-- ===== src/Mux/Stream/Sending.antt =====
-- A round of `Write` of stream.go takes credit from the send window.
use toppa.Base.{ℕ, ◌+◌, ◌^◌, ◌≤◌, ◌<◌, ◌≡◌, ◌⊎◌, false, arith}
use toppa.Mux.Stream.{Stream, reserve, chunk, chunk_size}

-- With no value negative, the signed comparisons choose the least of the three.
pub chunk_size_lem :
    (left win cap : ℕ)
    → left < 2 ^ 63
    → win < 2 ^ 63
    → cap < 2 ^ 63
    → (chunk_size left win cap ≤ left)
      × (chunk_size left win cap ≤ win)
      × (chunk_size left win cap ≤ cap)
      × ((chunk_size left win cap ≡ left)
          ⊎ (chunk_size left win cap ≡ win)
          ⊎ (chunk_size left win cap ≡ cap))
chunk_size_lem left win cap hl hw hc = ground arith

-- The chunk is within what is left, the window and the frame cap, and the window falls by it.
pub reserve-chunk :
    (st st' : Stream) (left cap n : ℕ)
    → left < 2 ^ 63
    → st.send_win < 2 ^ 63
    → cap < 2 ^ 63
    → reserve st left cap ≡ (st', chunk n)
    → (n ≤ left) × (n ≤ cap) × (st'.send_win + n ≡ st.send_win)
unfolding reserve
reserve-chunk st st' left cap n hl hw hc e =
    ground (arith, e, chunk_size_lem left st.send_win cap hl hw hc)

-- Where there are bytes left, credit and a positive payload cap, all below 2^63, and the stream
-- is not reset, a round of `Write` always frames some bytes.
pub reserve_progress :
    (st : Stream) (left cap : ℕ)
    → 0 < left
    → left < 2 ^ 63
    → 0 < st.send_win
    → st.send_win < 2 ^ 63
    → 0 < cap
    → cap < 2 ^ 63
    → st.reset ≡ false
    → (n : ℕ) × (0 < n) × ((reserve st left cap).1 ≡ chunk n)
unfolding reserve
reserve_progress st left cap hl hl' hw hw' hc hc' h =
    let n = chunk_size left st.send_win cap in
    (
      n,
      ground (arith, chunk_size_lem left st.send_win cap hl' hw' hc'),
      ground (arith, chunk_size_lem left st.send_win cap hl' hw' hc'),
    )

-- A chunk is never empty.
pub reserve-chunk_pos :
    (st st' : Stream) (left cap n : ℕ)
    → 0 < left
    → left < 2 ^ 63
    → st.send_win < 2 ^ 63
    → 0 < cap
    → cap < 2 ^ 63
    → reserve st left cap ≡ (st', chunk n)
    → 0 < n
unfolding reserve
reserve-chunk_pos st st' left cap n hl hl' hw hc hc' e =
    ground (arith, e, chunk_size_lem left st.send_win cap hl' hw hc')
