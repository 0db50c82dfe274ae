-- ===== src/Ln/Tests.antt =====
-- Links on a file system with one place, at any path.
use mathlib.Core.Path.{subst}
use seminars.Base.{
  ℕ, ◌+◌, ◌≡◌, ◌≢◌, refl, true, Option, none, some, List, [], ◌∷◌, ◌++◌, length, take, codes, arith,
}
use seminars.Ln.{Answer, gave, failed, System, exits, read_link, main}
use seminars.Ln.Link.{NoNul, Reads, read_link-Reads, main-reads_link}

abbrev Place : Type 0
Place = Option (List ℕ)

-- ENOENT and EEXIST
unfoldable place_symlink : List ℕ → List ℕ → Place → Answer Place
place_symlink value path none = gave (some value)
place_symlink value path (some v) = failed 17

unfoldable place_lstat : List ℕ → Place → Answer ℕ
place_lstat path none = failed 2
place_lstat path (some v) = gave (length v)

unfoldable place_readlink : List ℕ → ℕ → Place → Answer (List ℕ)
place_readlink path n none = failed 2
place_readlink path n (some v) = gave (take n v)

place_symlink-link :
    (value path : List ℕ) (s s' : Place) → place_symlink value path s ≡ gave s' → s' ≡ some value
unfolding place_symlink
place_symlink-link value path none s' e = cc
place_symlink-link value path (some v) s' e = absurd cc

place_symlink-failed :
    (value path : List ℕ) (s : Place) (e : ℕ) → place_symlink value path s ≡ failed e → e ≢ 0
unfolding place_symlink
place_symlink-failed value path none e h = absurd cc
place_symlink-failed value path (some v) e h = ground arith

place_lstat-link :
    (path value : List ℕ) (s : Place) (size : ℕ)
    → place_lstat path s ≡ gave size
    → s ≡ some value
    → size ≡ length value
unfolding place_lstat
place_lstat-link path value none size e h = absurd cc
place_lstat-link path value (some v) size e h = cc

place_readlink-link :
    (path bytes : List ℕ) (n : ℕ) (s : Place)
    → place_readlink path n s ≡ gave bytes
    → (value : List ℕ) × (s ≡ some value) × (bytes ≡ take n value)
unfolding place_readlink
place_readlink-link path bytes n none e = absurd cc
place_readlink-link path bytes n (some v) e = (v, refl, cc)

unfoldable one_place : System Place
unfolding place_symlink place_lstat place_readlink
one_place = record {
  link = λ s path. s;
  symlink = place_symlink;
  lstat = place_lstat;
  readlink = place_readlink;
  perror_errno = λ e. e;
  free_errno = λ e. e;
  perror_errno-nonzero = λ e h. h;
  symlink-link = place_symlink-link;
  symlink-failed = place_symlink-failed;
  lstat-link = place_lstat-link;
  readlink-link = place_readlink-link;
}

abbrev target : List ℕ
target = codes "../a"

target-NoNul : NoNul target
target-NoNul = omega arith

-- The link has become longer since lstat.
longer-NoNul :
    (value : List ℕ) → one_place.link (some (codes "../a/b")) (codes "l") ≡ some value → NoNul value
unfolding one_place
longer-NoNul value e =
    let same : codes "../a/b" ≡ value = cc in
    let text : NoNul (codes "../a/b") = omega arith in subst NoNul same text

read_link-Reads_example :
    Reads one_place true
      (codes "l")
      (some target)
      (some (codes "../a/b"))
      (read_link one_place true (codes "l") (some target) (some (codes "../a/b")))
read_link-Reads_example =
    read_link-Reads one_place true (codes "l") (some target) (some (codes "../a/b")) longer-NoNul

link_made :
    main one_place true (codes "ln" ∷ codes "-s" ∷ target ∷ codes "l" ∷ []) none none
    ≡ exits 0 [] (some target)
unfolding one_place main
link_made = refl

target_seen : one_place.lstat (codes "l") (some target) ≡ gave 4
unfolding one_place
target_seen = refl

target_read : one_place.readlink (codes "l") (4 + 1) (some target) ≡ gave target
unfolding one_place
target_read = refl

main-reads_link_example :
    main one_place true (codes "ln" ∷ codes "-r" ∷ codes "l" ∷ []) (some target) (some target)
    ≡ exits 0 (target ++ (10 ∷ [])) (some target)
main-reads_link_example =
    main-reads_link one_place (codes "ln") target (codes "l") true none (some target) 4 target
      target-NoNul link_made target_seen target_read
