-- ===== src/Detector/Files.antt =====
-- The list of files that `pollTask` of eigerApp/src/eigerDetector.cpp makes.
use adeiger.Base.{
  ℕ, zero, suc, ◌+◌, ◌<◌, ◌≤◌, ◌≡◌, refl, Bool, true, false, ◌==◌, List, arith, if◌then◌else◌,
}
use adeiger.Base.Int.{ℤ}
use adeiger.Rest.Outside.{Outside}
use adeiger.Rest.FileNames.{build_master_name, build_data_name}

pub record Acquisition : Type 0 where
  pub pattern : List ℕ
  pub sequence_id : ℤ
  pub n_data_files : ℕ
  pub save_files : Bool
  pub parse_files : Bool
  pub remove_files : Bool

-- `file_t`. Of the data, whether the pointer is set.
pub record File : Type 0 where
  pub name : List ℕ
  pub has_data : Bool
  pub save : Bool
  pub parse : Bool
  pub remove : Bool
  pub ref_count : ℕ

abbrev pub max_buf_size : ℕ
max_buf_size = 256

abbrev default_nr_start : ℕ
default_nr_start = 1

-- A Bool as a number.
abbrev pub one_if : Bool → ℕ
one_if true = 1
one_if false = 0

unfoldable pub file_name : Outside → Acquisition → ℕ → List ℕ
file_name o acq zero = build_master_name o acq.pattern acq.sequence_id max_buf_size
file_name o acq (suc n) =
    build_data_name o (n + default_nr_start) acq.pattern acq.sequence_id max_buf_size

-- The file at an index of the list; the first one is the master.
unfoldable pub make_file : Outside → Acquisition → ℕ → File
make_file o acq i =
    let parse = (if i == 0 then false else acq.parse_files) in
    record {
      name = file_name o acq i;
      has_data = false;
      save = acq.save_files;
      parse = parse;
      remove = acq.remove_files;
      ref_count = one_if acq.save_files + one_if parse;
    }

-- The array, by index. No task uses an index past its end.
abbrev pub Files : Type 0
Files = ℕ → File

unfoldable pub update : Files → ℕ → File → Files
update fs i f j = if i == j then f else fs j

-- How many tasks a file that is downloaded goes to.
abbrev pub uses : File → ℕ
uses f = one_if f.save + one_if f.parse

abbrev pub positive : ℕ → ℕ
positive zero = 0
positive (suc n) = 1

-- How many of the first files are still referred to.
unfoldable pub busy : Files → ℕ → ℕ
busy fs zero = 0
busy fs (suc n) = busy fs n + positive (fs n).ref_count

busy-update_past : (fs : Files) (i n : ℕ) (f : File) → n ≤ i → busy (update fs i f) n ≡ busy fs n
unfolding busy update
busy-update_past fs i zero f h = refl
busy-update_past fs i (suc n) f h = ground (arith, busy-update_past fs i n f (omega arith))

-- A change of one file.
pub busy-update :
    (fs : Files) (i n : ℕ) (f : File)
    → i < n
    → busy (update fs i f) n + positive (fs i).ref_count ≡ busy fs n + positive f.ref_count
unfolding busy update
busy-update fs i zero f h = omega arith
busy-update fs i (suc n) f h = ground (arith, busy-update_past fs i n f, busy-update fs i n f)

pub busy-here : (fs : Files) (i n : ℕ) → i < n → positive (fs i).ref_count ≤ busy fs n
unfolding busy
busy-here fs i zero h = omega arith
busy-here fs i (suc n) h = ground (arith, busy-here fs i n)
