-- ===== src/Seccomp/Sessions/Counts.antt =====
-- How often a descriptor stands in the tables and in a list.
use sysbox_fs.Prelude.{ℕ, ◌+◌, ◌-◌, ◌≤◌, ◌≡◌, String, List, [], ◌∷◌, ◌++◌, nat_eq, string_eq, arith}
use sysbox_fs.Prelude.Maps.{Map, lookup, insert, delete}
use sysbox_fs.Seccomp.Sessions.{SeccompSession, session_fds, or_nil, count, close_one, close_all}

-- The descriptors of all sessions in a table.
abbrev pub table_fds : Map String (List SeccompSession) → List ℕ
table_fds [] = []
table_fds ((k, ss) ∷ m) = session_fds ss ++ table_fds m

pub count-append : (x : ℕ) (xs ys : List ℕ) → count x (xs ++ ys) ≡ count x xs + count x ys
count-append x [] ys = ground arith
count-append x (z ∷ xs) ys = ground (arith, count-append x xs ys)

pub count-session_fds :
    (x : ℕ) (ss : List SeccompSession) (s : SeccompSession)
    → count x (session_fds (ss ++ s ∷ [])) ≡ count x (session_fds ss) + count x (s.fd ∷ [])
count-session_fds x [] s = ground arith
count-session_fds x (t ∷ ss) s = ground (arith, count-session_fds x ss s)

pub count-insert :
    (x : ℕ) (id : String) (ss : List SeccompSession) (m : Map String (List SeccompSession))
    → count x (table_fds (insert id ss m)) + count x (session_fds (or_nil (lookup id m)))
      ≡ count x (table_fds m) + count x (session_fds ss)
unfolding insert lookup
count-insert x id ss [] = ground (arith, count-append x (session_fds ss) [])
count-insert x id ss ((k, old) ∷ m) = ground (
  arith,
  count-insert x id ss m,
  count-append x (session_fds ss) (table_fds m),
  count-append x (session_fds old) (table_fds m),
  count-append x (session_fds old) (table_fds (insert id ss m)),
)

pub count-delete :
    (x : ℕ) (id : String) (m : Map String (List SeccompSession))
    → count x (table_fds (delete id m)) + count x (session_fds (or_nil (lookup id m)))
      ≤ count x (table_fds m)
unfolding delete lookup
count-delete x id [] = ground arith
count-delete x id ((k, old) ∷ m) = ground (
  arith,
  count-delete x id m,
  count-append x (session_fds old) (table_fds m),
  count-append x (session_fds old) (table_fds (delete id m)),
)

pub count-close_one :
    (x y : ℕ) (ys : List ℕ) → count x (close_one y ys) ≡ count x ys - count x (y ∷ [])
count-close_one x y [] = ground arith
count-close_one x y (z ∷ ys) = ground (arith, count-close_one x y ys)

pub count-close_all : (x : ℕ) (xs ys : List ℕ) → count x (close_all xs ys) ≡ count x ys - count x xs
count-close_all x [] ys = omega arith
count-close_all x (y ∷ xs) ys =
    ground (arith, count-close_all x xs (close_one y ys), count-close_one x y ys)
