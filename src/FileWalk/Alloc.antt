-- ===== src/FileWalk/Alloc.antt =====
-- APUE/alloc.c: the buffer for a path.
use temp.Base.{ℕ, ◌+◌, Bool, ◌&&◌, Option, none, some, ltb, ◌==◌, if◌then◌else◌}

-- The static variables, and their first values where PATH_MAX is defined.
pub record Statics : Type 0 where
  pub pathmax : ℕ
  pub posix_version : ℕ
  pub xsi_version : ℕ

abbrev pub statics : Statics
statics = record { pathmax = 4096; posix_version = 0; xsi_version = 0 }

-- The result of `pathconf`: a limit, no limit (-1 with `errno` still 0), or a failure.
pub data PathLimit : Type 0 where
  limit : ℕ → PathLimit
  no_limit failure : PathLimit

-- What the system answers to `sysconf`, `pathconf` and `malloc`.
pub record Conf : Type 0 where
  pub version : ℕ
  pub xopen_version : ℕ
  pub path_limit : PathLimit
  pub malloc : ℕ → Bool

-- `pathmax` after it has been asked for: `none` if `err_sys` ends the process.
unfoldable pub max_path : Conf → Statics → Option ℕ
max_path c st =
    if st.pathmax == 0
    then elim c.path_limit [ limit n ↦ some (n + 1) | no_limit ↦ some 1024 | failure ↦ none ]
    else some st.pathmax

-- `path_alloc`: the size of the buffer, and the static variables after it.
unfoldable pub path_alloc : Conf → Statics → Option (ℕ × Statics)
path_alloc c st =
    let posix = if st.posix_version == 0 then c.version else st.posix_version in
    let xsi = if st.xsi_version == 0 then c.xopen_version else st.xsi_version in
    elim (max_path c st) [
      | none ↦ none
      | some pathmax ↦
          let size = if ltb posix 200112 && ltb xsi 4 then pathmax + 1 else pathmax in
          if c.malloc size
          then some (size, record { pathmax = pathmax; posix_version = posix; xsi_version = xsi })
          else none
    ]
