-- ===== src/Vm/Load/Accepts.antt =====
-- Which images vm_i8_load_program accepts, and the layout that it reads from them.
use chromatron.Base.{ℕ, ◌+◌, ◌/◌, ◌%◌, ◌^◌, ◌<◌, ◌≡◌, false, some, List, take, arith}
use chromatron.Base.Bytes.{◌>>=◌, >>=-eq-some, read32}
use chromatron.Crc.{u16_block}
use chromatron.Vm.Types.{Status}
use chromatron.Vm.Image.{VmState}
use chromatron.Vm.Load.{
  file_magic, program_magic, code_magic, data_magic, isa_version, Header, read_header, cleared,
  load_data, load_code, load_pixels, load_publish, load_write_keys, load_read_keys, load_header,
  load_program,
}

-- Where the variable part of the header ends and the code begins.
abbrev pub objects_end : Header → ℕ
objects_end h = 28 + h.read_keys_len + h.write_keys_len + h.publish_len + h.pix_obj_len

-- What a compiler has to provide: the magic numbers in their places, the key and publish tables in
-- whole words, and sections that together stay below 64 KiB.
pub record IsWellFormed (bs : List ℕ) (h : Header) : Type 0 where
  pub file : h.file ≡ file_magic
  pub prog : h.prog ≡ program_magic
  pub isa : h.isa ≡ isa_version
  pub read_keys : h.read_keys_len % 4 ≡ 0
  pub write_keys : h.write_keys_len % 4 ≡ 0
  pub publish : h.publish_len % 4 ≡ 0
  pub room : objects_end h + 4 + h.code_len + 4 < 2 ^ 16
  pub code : read32 bs (objects_end h) ≡ some code_magic
  pub data_section : read32 bs (objects_end h + 4 + h.code_len) ≡ some data_magic

-- The sections one behind the other.
abbrev pub layout : Header → VmState
layout h = record cleared {
  init_start = h.init_start;
  loop_start = h.loop_start;
  read_keys_count = h.read_keys_len / 4 % 2 ^ 8;
  read_keys_start = 28;
  write_keys_count = h.write_keys_len / 4 % 2 ^ 8;
  write_keys_start = 28 + h.read_keys_len;
  publish_count = h.publish_len / 8 % 2 ^ 8;
  publish_start = 28 + h.read_keys_len + h.write_keys_len;
  pix_obj_count = h.pix_obj_len / 12 % 2 ^ 8;
  pix_obj_start = 28 + h.read_keys_len + h.write_keys_len + h.publish_len;
  code_start = objects_end h + 4;
  data_start = objects_end h + 4 + h.code_len + 4;
  data_len = h.data_len;
  data_count = h.data_len / 4;
  rng_seed = 1;
}

module _ (bs : List ℕ) (h : Header) (wf : IsWellFormed bs h) where
  load_header_accepts : load_header false bs h ≡ some (Status.ok, layout h)
  unfolding load_header load_read_keys load_write_keys load_publish load_pixels load_code load_data
  load_header_accepts = ground arith

  -- A stream with a checksum of 0 and a well-formed header is accepted, and the state holds the layout
  -- of the header, the seed 1 and otherwise zeros.
  pub load_program_accepts :
      (len : ℕ)
      → u16_block (take len bs) ≡ 0
      → read_header bs ≡ some h
      → load_program 0 bs len ≡ some (Status.ok, layout h)
  unfolding load_program
  load_program_accepts len crc read = rw (crc, read) load_header_accepts

-- What an accepted stream is known to hold.
pub record IsAccepted (bs : List ℕ) (h : Header) (st : VmState) : Type 0 where
  pub file : h.file ≡ file_magic
  pub prog : h.prog ≡ program_magic
  pub isa : h.isa ≡ isa_version
  pub write_keys : st.write_keys_start % 4 ≡ 0
  pub publish : st.publish_start % 4 ≡ 0
  pub pixels : st.pix_obj_start % 4 ≡ 0
  pub code : read32 bs ((st.pix_obj_start + h.pix_obj_len) % 2 ^ 16) ≡ some code_magic
  pub code_start : st.code_start ≡ ((st.pix_obj_start + h.pix_obj_len) % 2 ^ 16 + 4) % 2 ^ 16
  pub data_section : read32 bs ((st.code_start + h.code_len) % 2 ^ 16) ≡ some data_magic
  pub data_start : st.data_start ≡ ((st.code_start + h.code_len) % 2 ^ 16 + 4) % 2 ^ 16
  pub data_count : st.data_count ≡ h.data_len / 4
  pub fresh : (st.rng_seed ≡ 1) × (st.max_cycles ≡ 0) × (st.frame_number ≡ 0)

module _ (bs : List ℕ) (h : Header) (st : VmState) where
  load_header_sound : load_header false bs h ≡ some (Status.ok, st) → IsAccepted bs h st
  unfolding load_header load_read_keys load_write_keys load_publish load_pixels load_code load_data
  load_header_sound e = ground arith

-- What is accepted with the header flag clear has a checksum of 0, the magic numbers where the state says that the sections are,
-- and tables that start on word boundaries.
pub load_program_sound :
    (flags len : ℕ) (bs : List ℕ) {st : VmState}
    → flags % 2 ≡ 0
    → load_program flags bs len ≡ some (Status.ok, st)
    → (h : Header) × (u16_block (take len bs) ≡ 0) × (read_header bs ≡ some h) × IsAccepted bs h st
unfolding load_program
load_program_sound flags len bs {st} even e =
    let crc : u16_block (take len bs) ≡ 0 = ground (arith, e) in
    let rest : (read_header bs >>= load_header false bs) ≡ some (Status.ok, st) =
      ground (arith, e) in
    let (h, read, ok) = >>=-eq-some (read_header bs) _ rest in
    (h, crc, read, load_header_sound bs h st ok)
