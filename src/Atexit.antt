-- ===== src/Atexit.antt =====
-- `__cxa_atexit` of src/runtime/libcxx.cpp and the table of src/include/libcxx.h.
pub mod Table
use kmd.Base.{ℕ, ◌+◌, Bool, leb, if◌then◌else◌, List, ◌∷◌, set, u32}

-- `atexit_func_entry_t`: three addresses.
pub record AtexitFuncEntry : Type 0 where
  pub destructor_func : ℕ
  pub obj_ptr : ℕ
  pub dso_handle : ℕ

abbrev pub atexit_max_funcs : ℕ
atexit_max_funcs = 128

-- `__atexit_funcs` and `__atexit_func_count`.
pub record Atexit : Type 0 where
  pub funcs : List AtexitFuncEntry
  pub func_count : ℕ

-- What the function returns: 0, or -1.
pub data Status : Type 0 where
  registered : Status
  full : Status

unfoldable pub cxa_atexit : ℕ → ℕ → ℕ → Atexit → Status × Atexit
cxa_atexit f objptr dso s = if leb atexit_max_funcs s.func_count then (full, s) else (
  registered,
  record {
    funcs =
        set s.funcs s.func_count
          (record { destructor_func = f; obj_ptr = objptr; dso_handle = dso });
    func_count = u32 (s.func_count + 1);
  },
)
