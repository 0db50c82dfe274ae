-- ===== src/Ls/Tests.antt =====
-- A directory of three files.
use seminars.Base.{ℕ, ◌≡◌, refl, true, false, none, some, List, [], ◌∷◌, ◌++◌, All, codes, arith}
use seminars.Ls.{
  Mode, no_flags, get_flags, take_flag, Stat, Ent, regular, compare_ents, strcmp, special, past_dot,
}
use seminars.Ls.Entries.{Library, Dirent, filled, create_ents_arr, fill, look_up, grow, file_name}
use seminars.Ls.Listing.{Lists, create_ents_arr-Lists}
use seminars.Ls.Sort.{insertion_sort, insertion_sort-IsSorted, insertion_sort-perm}
use seminars.Ls.Limits.{no_limits, Tm, get_limits, sym_of, count_digits, two_digits, is_hidden}
use seminars.Ls.Print.{time_text, place_time, month_name}
use seminars.Ls.Columns.{Printed, print_long-Printed}

abbrev plain : Stat
plain = record {
  kind = regular;
  permissions = 420;
  nlink = 1;
  size = 1024;
  uid = 0;
  gid = 0;
  mtime = 0;
}

abbrev dirents : List Dirent
dirents =
    record { name = codes "b"; is_link = false }
    ∷ record { name = codes ".a"; is_link = false }
    ∷ record { name = codes "."; is_link = false }
    ∷ []

abbrev library : Library
library = record {
  opendir = λ path. some dirents;
  stat = λ path. some plain;
  lstat = λ path. none;
  getpwuid = λ call uid. some (codes "root");
  getgrgid = λ call gid. some (codes "wheel");
  has_memory = λ n. true;
  qsort = insertion_sort;
  qsort-IsSorted = λ cmp ents o. insertion_sort-IsSorted cmp o ents;
  qsort-perm = insertion_sort-perm;
}

abbrev entry : List ℕ → Ent
entry name = record {
  name = name;
  user_name = codes "root";
  group_name = codes "wheel";
  st = plain;
}

abbrev sorted : List Ent
sorted = entry (codes ".") ∷ entry (codes ".a") ∷ entry (codes "b") ∷ []

lists_sorted : create_ents_arr library (codes ".") ≡ filled sorted 4
unfolding create_ents_arr fill look_up grow file_name insertion_sort compare_ents special past_dot
    strcmp
lists_sorted = refl

-- The option -d, which the code tells getopt_long of, is refused.
directory_flag : get_flags (b'd' ∷ []) no_flags ≡ none
unfolding get_flags take_flag
directory_flag = refl

create_ents_arr-Lists_example :
    Lists library (codes ".") dirents (create_ents_arr library (codes "."))
create_ents_arr-Lists_example = create_ents_arr-Lists library (codes ".") dirents refl

abbrev first_of_may : ℕ → Tm
first_of_may t = record { mon = 4; mday = 1; hour = 12; min = 30 }

abbrev long : Mode
long = record no_flags { flag_long = true }

print_long-Printed_example :
    All
      (λ ent.
        is_hidden long ent ≡ false
        → Printed first_of_may [] (get_limits first_of_may long sorted no_limits) ent)
      sorted
print_long-Printed_example =
    print_long-Printed first_of_may [] long sorted refl (λ t. omega arith) (omega arith)

-- The byte 1 stands between the month and the day.
may_time : time_text 2 (first_of_may 0) [] ≡ some (codes "May " ++ (1 ∷ codes "01 12:30 "))
unfolding time_text place_time month_name two_digits sym_of count_digits
may_time = refl
