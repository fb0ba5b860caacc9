-- ===== src/TextTests.antt =====
-- Runs of the text functions on paths and fields of the kind that the program meets.
use sysbox_fs.Prelude.{◌≡◌, refl, true, [], ◌∷◌, some}
use sysbox_fs.Text.{
  trim_prefix, has_suffix, split_on, split_first, join_with, clean, join, dir, parse_digits,
}

trim_example : trim_prefix "/some/path/proc/uptime" "/some/path/proc" ≡ "/uptime"
unfolding trim_prefix
trim_example = refl

suffix_example : has_suffix "/proc/uptime" "/uptime" ≡ true
unfolding has_suffix
suffix_example = refl

split_example : split_on b' ' "a  bc " ≡ "a" ∷ "" ∷ "bc" ∷ "" ∷ []
unfolding split_on
split_example = refl

split_first_example : split_first b':' "master:2:3" ≡ ("master", some "2:3")
unfolding split_first
split_first_example = refl

clean_example : clean "/a/./b//../../../c/" ≡ "/c"
unfolding clean
clean_example = refl

clean_relative_example : clean "../a/.." ≡ ".."
unfolding clean
clean_relative_example = refl

clean_root_example : clean "/" ≡ "/"
unfolding clean
clean_root_example = refl

join_example : join "/jail" "/proc" ≡ "/jail/proc"
unfolding join
join_example = refl

dir_example : dir "/proc/12/root/x" ≡ "/proc/12/root"
unfolding dir
dir_example = refl

digits_example : parse_digits "2712" ≡ some 2712
unfolding parse_digits
digits_example = refl

join_with_example : join_with "," ("ro" ∷ "nodev" ∷ []) ≡ "ro,nodev"
unfolding join_with
join_with_example = refl
