-- ===== src/Page.antt =====
-- src/include/Page.h and src/mm/Page.cpp: the record of a physical page.
use kmd.Base.{ℕ, ◌+◌, Bool, true, ◌&&◌, leb, u64, sub64, if◌then◌else◌, ◌==◌}
use kmd.Kernel.{Page, ok, Cmd}

-- The two constructors.
abbrev pub null_page : Page
null_page = record { base = 0; references = 0; available = true }

abbrev pub page_at : ℕ → Page
page_at base = record { base = base; references = 0; available = true }

unfoldable pub inc_references : Page → Page
inc_references p = record p { references = u64 (p.references + 1) }

unfoldable pub dec_references : Page → Page
dec_references p = record p { references = sub64 p.references 1 }

-- One reference is the identity mapping that every page has from the start.
unfoldable pub is_free : Page → Bool
is_free p = leb p.references 1 && p.available

abbrev pub set_available : Page → Bool → Page
set_available p available = record p { available = available }

-- `pg->incReferences()` on the page of index `i` in the array.
abbrev pub update_page : (ℕ → Page) → ℕ → Page → ℕ → Page
update_page pages i p j = if j == i then p else pages j

unfoldable pub inc_page : ℕ → Cmd (Unit {0})
unfolding inc_references
inc_page i k = ok tt (record k { pages = update_page k.pages i (inc_references (k.pages i)) })
