-- ===== src/Tests/SavedRuns.antt =====
-- A state that is written to its file and read back.
use avar.Base.{[], arith, none, refl, some, true, ℕ, ◌∷◌, ◌≡◌}
use avar.State.Saved.Writing.{StateFiles, Writable, download_state_save}
use avar.State.Saved.{download_state_load, download_status_is_valid}
use avar.CString.{lit}
use avar.State.{DownloadState}
use avar.State.Saved.Reload.{download_state_load-save}
use avar.State.Saved.RoundTrip.{IsSavable}
use avar.Tests.Fixtures.{halfway-IsWellFormed, halfway}
use avar.Tests.Documents.{documents, documents-IsLawful}

abbrev stored : DownloadState
stored = record halfway {
  url = some (lit "http://h/f");
  filename = some (lit "f");
  dest_path = some (lit "/d/f");
  status = some (lit "paused");
  added_through = some (lit "direct");
  etag = some (lit "x");
  ts_segments = lit "http://h/1.ts" ∷ [];
}

stored-IsSavable : IsSavable documents-IsLawful stored
unfolding download_status_is_valid
stored-IsSavable = record {
  well_formed = record {
    gapped = halfway-IsWellFormed.gapped;
    in_size = halfway-IsWellFormed.in_size;
    room = halfway-IsWellFormed.room;
    size_fits = halfway-IsWellFormed.size_fits;
  };
  storable = ((omega arith, omega arith), ((omega arith, omega arith), tt));
  named = refl;
  added = refl;
  known_status = refl;
  total_fits = omega arith;
  bytes_fit = omega arith;
  chunk_given = omega arith;
  chunk_fits = omega arith;
}

abbrev no_files : StateFiles
no_files = record { saved = none; temporary = none }

abbrev all_well : Writable
all_well = record { allowed = true; opened = true; written = true; renamed = true }

download_state_load-save_example :
    (cap : ℕ) × (download_state_load
        (λ n. true)
        (download_state_save all_well stored no_files).1.saved
      ≡ some (record stored { done_range_capacity = cap }))
unfolding download_state_save
download_state_load-save_example =
    download_state_load-save documents-IsLawful (λ n. true) (λ n. refl) stored stored-IsSavable
      all_well no_files refl
