-- ===== src/Stream/Decoder.antt =====
-- `StreamDecoder` and `StreamDecoderBuilder`.
pub mod Robust
pub mod Ends
pub mod Kept
use barrique.Base.{
  ℕ, Option, none, some, List, Outcome, ok, err, panic, Call, gets, when, ◌>>=◌, ◌>>◌, ok_or, ltb,
}
use barrique.Io.{Reader}
use barrique.Lz4.{Foreign}
use barrique.Region.{RegionError}
use barrique.Region.Pull
use barrique.Region.Pull.{Pull}
use barrique.Region.RegionBuffer
use barrique.Region.RegionBuffer.{RegionBuffer}
use barrique.Stream.{DecodeBearer}

pub record StreamDecoderBuilder : Type 0 where
  pub region_buffer : RegionBuffer
  pub seed : Option ℕ

unfoldable pub builder : ℕ → StreamDecoderBuilder
unfolding RegionBuffer.new
builder size = record { region_buffer = RegionBuffer.new size; seed = none }

unfoldable pub from_raw : RegionBuffer → StreamDecoderBuilder
from_raw buffer = record { region_buffer = buffer; seed = none }

unfoldable pub with_seed : ℕ → StreamDecoderBuilder → StreamDecoderBuilder
with_seed seed b = record b { seed = some seed }

module _ (x : Foreign) where
  pub record StreamDecoder (R : Type 0) : Type 0 where
    pub region_buffer : RegionBuffer
    pub switch : Pull x R

  module _ {R : Type 0} (r : Reader R) where
    -- `self.region_buffer.pass(&mut self.switch)`
    unfoldable pub next_region : Call (StreamDecoder R) RegionError (Unit {0})
    unfolding RegionBuffer.pass
    next_region d =
        let (a, s) = RegionBuffer.pass (Pull.pass x r) (d.switch, d.region_buffer) in
        (a, record { region_buffer = s.1; switch = s.0 })

    -- A decoder whose first region has been read.
    opened : StreamDecoder R → Outcome RegionError (StreamDecoder R)
    opened d =
        let (a, d') = next_region d in elim a [ ok _ ↦ ok d' | err e ↦ err e | panic ↦ panic ]

    unfoldable pub build : R → StreamDecoderBuilder → Outcome RegionError (StreamDecoder R)
    unfolding opened next_region
    build reader b =
        opened (record { region_buffer = b.region_buffer; switch = Pull.new x r reader b.seed })

    -- The decoder that `StreamDecoder::new` begins with.
    unfoldable pub closed : R → ℕ → Option ℕ → StreamDecoder R
    unfolding RegionBuffer.new
    closed src size seed = record {
      region_buffer = RegionBuffer.new size;
      switch = Pull.new x r src seed;
    }

    -- `StreamDecoder::new`
    unfoldable pub new : R → ℕ → Option ℕ → Outcome RegionError (StreamDecoder R)
    unfolding opened next_region
    new src size seed = opened (closed src size seed)

    unfoldable pub into_raw : StreamDecoder R → RegionBuffer
    into_raw d = d.region_buffer

    -- `self.region_buffer.swap()`
    swap : StreamDecoder R → StreamDecoder R
    swap d = record d { region_buffer = RegionBuffer.swap d.region_buffer }

    -- `self.region_buffer.read(n).ok_or(RegionError::OutOfBounds)`
    read_buffer : ℕ → Call (StreamDecoder R) RegionError (List ℕ)
    read_buffer n d =
        let (bytes, b) = RegionBuffer.read n d.region_buffer in
        (ok_or bytes RegionError.out_of_bounds, record d { region_buffer = b })

    -- What is left of the region at hand is dropped where it is too short for the request.
    unfoldable pub read : ℕ → Call (StreamDecoder R) RegionError (List ℕ)
    unfolding next_region swap read_buffer RegionBuffer.swap RegionBuffer.read
        RegionBuffer.remaining_len
    read n = do
      left ← gets (λ d. RegionBuffer.remaining_len d.region_buffer)
      when (ltb left n) (λ d. next_region (swap d))
      read_buffer n

    unfoldable pub decode_bearer : DecodeBearer (StreamDecoder R)
    decode_bearer = record { read = read }
