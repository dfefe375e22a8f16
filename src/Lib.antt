-- ===== src/Lib.antt =====
-- barrique: a binary serialization format with compression, metadata and streaming.
--
-- A value is written as a sequence of chunks of bytes (`Encode`). A stream encoder gathers the
-- chunks into regions of at most 65535 bytes, compresses each one with LZ4 in the context of the
-- earlier ones, and puts a header of twelve bytes before it: the compressed length, the length and a
-- seeded hash. A frame puts a magic number, a descriptor and a label before one stream. A decoder
-- goes the same way back.
--
-- The files and the code that they model, by paths from the root of the repository:
--   Io and its children: the traits `Reader` and `Writer` of src/decode.rs and src/encode.rs, with
--     the implementations for slices, `Vec<u8>` and `&mut T`; Vec: the parts of `Vec<u8>` that unsafe code
--     relies on.
--   Lz4: src/lz4/mod.rs. lz4-sys and twox-hash are the record `Foreign`, and what they promise is the
--     records `ForeignLaws` and, of blocks that LZ4 has not made, `ForeignBytes`.
--   Region: src/region.rs. `RegionHeader` is Region/Header, the two buffers are Region/DoubleBuffer
--     and Region/RegionBuffer, and the switches are Region/Push and Region/Pull; Region/Emit,
--     Region/Absorb and Region/Refuse reason about them.
--   Stream: the encoder of src/encode.rs is Stream/Encoder, the decoder of src/decode.rs is
--     Stream/Decoder. Stream/Regions describes plainly how chunks fall into regions, and
--     Stream/Window follows the memory of the two buffers, to which LZ4 refers; Stream/Decoder/Robust and
--     Stream/Decoder/Ends reason about arbitrary sources, Stream/Decoder/Kept about the
--     block that LZ4 refers to, Stream/Failed about a switch that fails.
--   Frame: the label, the descriptor and the metadata of src/frame.rs; Frames: its `Frame`. A source
--     of arbitrary bytes is described by Io/Exact, for slices, and Cursor/Window/Exact, for
--     `CursorReader`; Region/Pull/Robust, Frame/Robust and Frames/Robust follow it up to the value.
--   Codec: the traits `Encode` and `Decode`, with the implementations of src/impl/mod.rs for
--     numbers, references, `PhantomData`, `bool`, `char`, `()`, `Option`, `Result`, `str`,
--     slices and arrays, of src/impl/alloc.rs for `Vec`, `VecDeque` and `String`, of
--     src/impl/tuple.rs for pairs, and of src/impl/seq.rs for linked lists, sets and maps, over
--     interfaces of iteration and insertion (Codec/Collection). Codec/Robust says what a decoder
--     does on bytes that no encoder has written.
--   Cursor: src/cursor.rs. Cursor/View has `CursorWriter` and `CursorReader` over parameters for
--     `io::Write` and `io::Read`; Cursor/Delivery, Cursor/Memory, Cursor/Window, Cursor/Reached and
--     Cursor/Carry reason about them. Frames/Io takes a frame through a `CursorWriter`.
--   Derive: the macros of derive/src, as the statements that they generate. Derive/Struct and
--     Derive/Enum are the two pairs of files, and Derive/Enum/Parsed says which generated enum decoders
--     parse; Derive/Input is the choice between structs and enums;
--     Derive/Names and Derive/Found say when a statement finds the value of its own field.
--     Derive/TupleGuard is derive/src/tuple_drop_guard.rs with the decoding of tuples.
--   Guard: the memory that the decoding of arrays, boxes and boxed slices fills in place, and the
--     guards of src/impl/mod.rs (Guard/Array) and of src/impl/alloc.rs (Guard/Array, Guard/Pointer).
--   Base, Bytes: shared names and lemmas, and the bytes of a number. Samples: a codec, a hash and
--     two bearers for the tests in the modules named Examples and Bearers.
--
-- Conventions. A byte is a number below 256, and a number of w bits is written with its
-- `% 2 ^ w`. A method that may fail is a `Call`: from a state to an outcome, which is `ok`, `err` or
-- `panic`, and the state that it leaves, also after an error. A slot that `decode` fills is the
-- value that the call returns. A mutable slice that a writer lends is its content together with
-- the writer that a later content makes. All loops are recursion on a list or on a count, so no
-- fuel is needed. `Ensures` says of a call that it does not panic and that its value and state
-- are as stated where it succeeds; after an error it says nothing of the state.
--
-- Not modelled: the parsing of attributes and generics by the macros, the counts of `Arc` and `Rc`,
-- and the addresses of the blocks that LZ4 refers to. Memory never runs out; where a length read from a
-- source asks for more than `isize::MAX` bytes, the decoding of `Vec`, `VecDeque`, `String` and boxed
-- slices panics, on a target whose `usize` has 32 bits or more.
pub mod Base
pub mod Bytes
pub mod Vec
pub mod Io
pub mod Lz4
pub mod Region
pub mod Stream
pub mod Frame
pub mod Codec
pub mod Frames
pub mod Cursor
pub mod Guard
pub mod Derive
pub mod Samples
