-- ===== src/Vm/Image/Frames.antt =====
-- vm_i8_run_init and vm_i8_run_loop as steps from image to image.
use chromatron.Base.{ℕ, ◌+◌, ◌%◌, ◌^◌, ◌≤◌, ◌≡◌, refl, ◌∙◌, length, All, arith}
use chromatron.Base.Bytes.Laws.{IsByte}
use chromatron.Vm.Types.{max_cycles, Env}
use chromatron.Vm.Stream.{Run, finished, faulted, out_of_fuel}
use chromatron.Vm.Stream.Ends.{Ends, run_stream-Ends}
use chromatron.Vm.Image.{
  Image, code_section, data_section, Outcome, returned, crashed, unfinished, finish, start, run_at,
  run_init, run_loop, cycle_fuel,
}
use chromatron.Vm.Image.Table.{
  Fits, length-put_data, code_section-put_data, put_data-IsByte, data_section_total,
}

-- An image whose data section lies in its stream, and whose record of the longest run is in budget.
pub record IsLoaded {G : Type 0} (img : Image G) : Type 0 where
  pub fits : Fits img.stream img.state
  pub in_bytes : All IsByte img.stream
  pub in_budget : img.state.max_cycles ≤ max_cycles + 1

-- what vm_i8_run_init and vm_i8_run_loop leave as it was
pub record SameLayout {G : Type 0} (old new : Image G) : Type 0 where
  pub code : code_section new.stream new.state ≡ code_section old.stream old.state
  pub size : length new.stream ≡ length old.stream
  pub data_start : new.state.data_start ≡ old.state.data_start
  pub data_count : new.state.data_count ≡ old.state.data_count
  pub init_start : new.state.init_start ≡ old.state.init_start
  pub loop_start : new.state.loop_start ≡ old.state.loop_start

-- One frame: a run that returned leaves an image that can be run again, with the same code and layout,
-- the given frame number, and a record of the longest run that did not fall.
pub record IsFrame {G : Type 0} (old : Image G) (frame : ℕ) (new : Image G) : Type 0 where
  pub loaded : IsLoaded new
  pub layout : SameLayout old new
  pub numbered : new.state.frame_number ≡ frame
  pub longest : old.state.max_cycles ≤ new.state.max_cycles

abbrev pub Frame : {G : Type 0} → Image G → ℕ → Outcome G → Type 0
Frame old frame (returned s new) = IsFrame old frame new
Frame old frame crashed = Unit
Frame old frame unfinished = ⊥

module _ {G : Type 0} (old img : Image G) (loaded : IsLoaded img) (same : SameLayout old img)
    (longest : old.state.max_cycles ≤ img.state.max_cycles) where
  finish-Frame :
      (r : Run G) → Ends img.state.data_count 0 r → Frame old img.state.frame_number (finish img r)
  unfolding finish code_section
  finish-Frame (finished s c) e = record {
    loaded = record {
      fits = omega (
        arith,
        length-put_data img.stream img.state loaded.fits c.data_table e.0.size,
        loaded.fits,
      );
      in_bytes = put_data-IsByte img.stream img.state loaded.fits c.data_table loaded.in_bytes;
      in_budget = ground (arith, loaded.in_budget, e.2);
    };
    layout = record {
      code = code_section-put_data img.stream img.state loaded.fits c.data_table ∙ same.code;
      size = length-put_data img.stream img.state loaded.fits c.data_table e.0.size ∙ same.size;
      data_start = same.data_start;
      data_count = same.data_count;
      init_start = same.init_start;
      loop_start = same.loop_start;
    };
    numbered = refl;
    longest = ground (arith, longest);
  }
  finish-Frame faulted e = tt
  finish-Frame out_of_fuel e = e

module _ {G : Type 0} (env : Env G) where
  run_at-Frame :
      (old img : Image G) (offset : ℕ)
      → IsLoaded img
      → SameLayout old img
      → old.state.max_cycles ≤ img.state.max_cycles
      → Frame old img.state.frame_number (run_at env img offset (data_section img.stream img.state))
  unfolding run_at start
  run_at-Frame old img offset loaded same longest =
      let (table, read, size, range) =
        data_section_total img.stream img.state loaded.fits loaded.in_bytes in
      rw read (
        finish-Frame old img loaded same longest _ (
          run_stream-Ends env (code_section img.stream img.state) img.state.data_count cycle_fuel _
            size range (omega arith) (omega arith)))

  -- vm_i8_run_init on a loaded image never runs on without end. It faults, or it returns and leaves a
  -- loaded image at frame 0 with the code and layout that it had.
  pub run_init-Frame : (img : Image G) → IsLoaded img → Frame img 0 (run_init env img)
  unfolding run_init code_section
  run_init-Frame img loaded =
      run_at-Frame img (record img { state = record img.state { frame_number = 0 } }) _
        (record { fits = loaded.fits; in_bytes = loaded.in_bytes; in_budget = loaded.in_budget })
        (record {
          code = refl;
          size = refl;
          data_start = refl;
          data_count = refl;
          init_start = refl;
          loop_start = refl;
        })
        (omega arith)

  -- So does vm_i8_run_loop, which counts the frame, modulo 2 ^ 16.
  pub run_loop-Frame :
      (img : Image G)
      → IsLoaded img
      → Frame img ((img.state.frame_number + 1) % 2 ^ 16) (run_loop env img)
  unfolding run_loop code_section
  run_loop-Frame img loaded =
      run_at-Frame img
        (record img {
          state = record img.state { frame_number = (img.state.frame_number + 1) % 2 ^ 16 };
        })
        _ (record { fits = loaded.fits; in_bytes = loaded.in_bytes; in_budget = loaded.in_budget })
        (record {
          code = refl;
          size = refl;
          data_start = refl;
          data_count = refl;
          init_start = refl;
          loop_start = refl;
        })
        (omega arith)
