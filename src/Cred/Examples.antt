-- ===== src/Cred/Examples.antt =====
-- The theorems on users and groups of bsd/lib/lazybsd_patch.c at work, and runs of the functions.
use lazybsd.Prelude.{
  ℕ, ◌*◌, ◌<◌, ◌≡◌, refl, some, true, false, arith, [], ◌∷◌, if◌then◌else◌, ◌==◌, ◌^◌, Bool,
}
use lazybsd.Cred.{Uidinfo, chgproccnt, groupmember}
use lazybsd.Cred.Groups.{is_among, AreSorted, groupmember-is_among}
use lazybsd.Cred.Sum.{resize, IsAccounted, resize-IsAccounted}

abbrev groups : ℕ → ℕ
groups i = if i == 0 then 25 else i * 10

finds : groupmember 4 groups 4 30 ≡ some true
unfolding groupmember
finds = refl

misses : groupmember 4 groups 4 40 ≡ some false
unfolding groupmember
misses = refl

groups-AreSorted : AreSorted groups 4
groups-AreSorted i j one le lt =
    let first : (i == 0) ≡ false = ground arith in
    let second : (j == 0) ≡ false = ground arith in rw (first, second) (omega (arith, le))

groupmember-is_among_example : groupmember 4 groups 4 30 ≡ some (is_among groups 4 30)
groupmember-is_among_example = groupmember-is_among groups 4 30 (omega arith) groups-AreSorted

abbrev user : Uidinfo
user = record { ui_proccnt = 2; ui_sbsize = 30; ui_ptscnt = 0; ui_kqcnt = 0; ui_umtxcnt = 0 }

-- A third process is too many, and 0 is no limit.
too_many : chgproccnt user 1 2 ≡ (user, false)
unfolding chgproccnt
too_many = refl

no_limit : chgproccnt user 1 0 ≡ (record user { ui_proccnt = 3 }, true)
unfolding chgproccnt
no_limit = refl

abbrev sizes : ℕ → ℕ
sizes i = if i == 0 then 10 else 20

accounted : IsAccounted 2 40 user sizes
accounted = record { sum = refl; limited = omega arith; small = λ i lt. below (i == 0) }
  where
    below : (b : Bool) → (if b then 10 else 20) < 2 ^ 31
    below true = omega arith
    below false = omega arith

resize-IsAccounted_example :
    let r = resize 40 ((0, 25) ∷ (1, 15) ∷ (0, 25) ∷ []) user sizes in IsAccounted 2 40 r.0 r.1
resize-IsAccounted_example =
    resize-IsAccounted 2 40 ((0, 25) ∷ (1, 15) ∷ (0, 25) ∷ []) user sizes (omega arith)
      (omega arith, omega arith, (omega arith, omega arith, (omega arith, omega arith, tt)))
      accounted
