-- ===== src/Frame.antt =====
-- src/frame.rs: the frame around a stream. A method that returns `Option` fails with `tt` where it
-- returns `None`.
pub mod Robust
pub mod Label
pub mod Descriptor
pub mod Metadata
mod Examples
use barrique.Io.{ReadError}

pub data FrameError : Type 0 where
  malformed_label non_ascii_label no_magic_number environment_mismatch out_of_bounds : FrameError
  metadata_error : ReadError → FrameError
