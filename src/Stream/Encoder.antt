-- ===== src/Stream/Encoder.antt =====
-- `StreamEncoder` and `StreamEncoderBuilder`.
use barrique.Base.{
  ℕ, Option, none, some, List, length, err, Call, gets, modify, when, ◌>>=◌, ◌>>◌, ltb,
  if◌then◌else◌,
}
use barrique.Io.{Writer}
use barrique.Lz4.{Foreign}
use barrique.Region.{RegionError, region_size}
use barrique.Region.Push
use barrique.Region.Push.{Push}
use barrique.Region.RegionBuffer
use barrique.Region.RegionBuffer.{RegionBuffer}
use barrique.Stream.{EncodeBearer}

pub record StreamEncoderBuilder : Type 0 where
  pub region_buffer : RegionBuffer
  pub seed : Option ℕ

unfoldable pub builder : ℕ → StreamEncoderBuilder
unfolding RegionBuffer.new
builder size = record { region_buffer = RegionBuffer.new size; seed = none }

unfoldable pub from_raw : RegionBuffer → StreamEncoderBuilder
from_raw buffer = record { region_buffer = buffer; seed = none }

unfoldable pub with_seed : ℕ → StreamEncoderBuilder → StreamEncoderBuilder
with_seed seed b = record b { seed = some seed }

module _ (x : Foreign) where
  pub record StreamEncoder (W : Type 0) : Type 0 where
    pub region_buffer : RegionBuffer
    pub switch : Push x W

  module _ {W : Type 0} (w : Writer W) where
    unfoldable pub build : W → StreamEncoderBuilder → StreamEncoder W
    build writer b = record { region_buffer = b.region_buffer; switch = Push.new x w writer b.seed }

    -- `StreamEncoder::new`
    unfoldable pub new : W → ℕ → Option ℕ → StreamEncoder W
    unfolding RegionBuffer.new
    new dst size seed = record {
      region_buffer = RegionBuffer.new size;
      switch = Push.new x w dst seed;
    }

    unfoldable pub into_raw : StreamEncoder W → RegionBuffer
    into_raw e = e.region_buffer

    -- `self.region_buffer.pass(&mut self.switch)`
    unfoldable pub flush : Call (StreamEncoder W) RegionError (Unit {0})
    unfolding RegionBuffer.pass
    flush e =
        let (r, s) = RegionBuffer.pass (Push.pass x w) (e.switch, e.region_buffer) in
        (r, record { region_buffer = s.1; switch = s.0 })

    swap : StreamEncoder W → StreamEncoder W
    swap e = record e { region_buffer = RegionBuffer.swap e.region_buffer }

    append : List ℕ → StreamEncoder W → StreamEncoder W
    append bytes e = record e { region_buffer = RegionBuffer.write bytes e.region_buffer }

    unfoldable pub write : List ℕ → Call (StreamEncoder W) RegionError (Unit {0})
    unfolding flush swap append RegionBuffer.swap RegionBuffer.write RegionBuffer.remaining_cap
    write bytes =
        if ltb region_size (length bytes) then gets (λ _. err RegionError.out_of_bounds) else (do
          cap ← gets (λ e. RegionBuffer.remaining_cap e.region_buffer)
          when (ltb cap (length bytes)) (flush >> modify swap)
          modify (append bytes))

    unfoldable pub encode_bearer : EncodeBearer (StreamEncoder W)
    encode_bearer = record { write = write }
