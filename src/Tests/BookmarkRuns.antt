-- ===== src/Tests/BookmarkRuns.antt =====
-- The bookmarks on an empty file.
use avar.Base.{none, refl, true, ◌||◌, ◌≡◌}
use avar.CString.{str_eq, lit}
use avar.Bookmark.{bookmark_add, bookmark_has_url}
use avar.Bookmark.Adding.{bookmark_has_url-bookmark_add}
use avar.Tests.Documents.{documents, documents-IsLawful}

bookmark_has_url-bookmark_add_example :
    bookmark_has_url true
      (bookmark_add true true 9 none (lit "http://a") none 3).1.1
      (lit "http://b")
    ≡ (str_eq (lit "http://a") (lit "http://b") || bookmark_has_url true none (lit "http://b"))
bookmark_has_url-bookmark_add_example =
    bookmark_has_url-bookmark_add documents-IsLawful 9 none (lit "http://a") none 3 (lit "http://b")
      refl refl
