-- ===== src/Os.antt =====
-- `Os_init` and `Os_status` of src/lingx/core/posix_init.cc with the functions for Linux that they
-- call, of linux_init.cc. What uname() returns is an argument, a buffer the list of its bytes.
pub mod Daemon
use lingx.Base.{
  ℕ, zero, suc, ◌≡◌, refl, ap, Bool, true, false, not, Option, none, some, List, [], ◌∷◌, ◌++◌,
  arith, ◌==◌, if◌then◌else◌, length, take,
}
use lingx.Log.Levels.{bytes}
use lingx.Strings.{strncpy}
use lingx.Strings.Writes.{NonZero, strncpy-copied}

pub data IoTable : Type 0 where
  posix_io linux_io : IoTable

pub record OsState : Type 0 where
  pub ostype : List ℕ
  pub osrelease : List ℕ
  pub os_io : IoTable

abbrev pub kern_size : ℕ
kern_size = 50

-- OK or ERROR, and the globals. uname() gives the name of the system and its release.
unfoldable pub os_specific_init : Option (List ℕ × List ℕ) → OsState → Bool × OsState
os_specific_init none s = (false, s)
os_specific_init (some (sysname, release)) s = (
  true,
  record {
    ostype = (strncpy s.ostype 0 sysname kern_size).0;
    osrelease = (strncpy s.osrelease 0 release kern_size).0;
    os_io = linux_io;
  },
)

unfoldable pub os_init : Option (List ℕ × List ℕ) → OsState → Bool × OsState
os_init uname s =
    let (is_ok, t) = os_specific_init uname s in if not is_ok then (false, t) else (true, t)

-- The C string at the start of a buffer.
unfoldable pub c_string : List ℕ → List ℕ
c_string [] = []
c_string (c ∷ cs) = if c == 0 then [] else c ∷ c_string cs

unfoldable pub os_specific_status : OsState → List ℕ
os_specific_status s = bytes "OS: " ++ c_string s.ostype ++ bytes " " ++ c_string s.osrelease

-- The messages, of the program's version and its compiler.
unfoldable pub os_status : List ℕ → List ℕ → OsState → List (List ℕ)
os_status version compiler s = version ∷ (bytes "built by " ++ compiler) ∷ os_specific_status s ∷ []

c_string-take :
    (words rest : List ℕ) (n : ℕ)
    → NonZero words
    → c_string (take n words ++ 0 ∷ rest) ≡ take n words
unfolding c_string
c_string-take words rest zero nz = refl
c_string-take [] rest (suc n) nz = refl
c_string-take (c ∷ words) rest (suc n) nz =
    let live : (c == 0) ≡ false = ground arith in
    rw live (ap (◌∷◌ c) (c_string-take words rest n nz.1))

-- After an `Os_init` that returns OK, the buffers hold the names that uname() gave, cut to 49 bytes
-- each, and `Os_status` logs them behind the version and the compiler.
pub os_status-os_init :
    (version compiler sysname release : List ℕ) (s : OsState)
    → NonZero sysname
    → NonZero release
    → length s.ostype ≡ kern_size
    → length s.osrelease ≡ kern_size
    → ((os_init (some (sysname, release)) s).0 ≡ true)
      × (os_status version compiler (os_init (some (sysname, release)) s).1
          ≡ version
            ∷ (bytes "built by " ++ compiler)
            ∷ (bytes "OS: " ++ take 49 sysname ++ bytes " " ++ take 49 release)
            ∷ [])
unfolding os_init os_specific_init os_status os_specific_status
os_status-os_init version compiler sysname release s ns nr ls lr =
    let a = strncpy-copied [] sysname kern_size s.ostype ns (omega arith) (omega arith) in
    let b = strncpy-copied [] release kern_size s.osrelease nr (omega arith) (omega arith) in
    (refl, rw (a, b, c_string-take sysname _ 49 ns, c_string-take release _ 49 nr) refl)
