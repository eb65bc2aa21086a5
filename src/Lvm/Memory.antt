-- ===== src/Lvm/Memory.antt =====
-- One volume group in memory, on which lvm2_cmd's functions are total and its laws hold: an
-- instance of the parameter for concrete runs.
use rlvm.Base.{
  ℕ, ◌%◌, ◌≡◌, refl, ◌∙◌, ap, ◌<>◌, ⊤, String, List, [], ◌∷◌, ◌==◌, if◌then◌else◌, arith,
}
use rlvm.Base.Text
use rlvm.Base.Number.{decimal}
use rlvm.Lvm.{Lvm, LvmError, VolumeGroup, LvCreateOptions, LogicalVolume}
use rlvm.Lvm.Laws.{IsFound, IsLawful}
use rlvm.Rpc.{Result, ok, err, Call}
use text.Mathlib.TextPositions.{eq_refl}

abbrev pub Volume : Type 0
Volume = LogicalVolume String String

-- Names and sizes. A volume is identified by its name.
abbrev pub Disk : Type 0
Disk = List (String × ℕ)

abbrev pub volume : String → ℕ → Volume
volume n size = record {
  uuid = n;
  name = n;
  capacity_bytes = size;
  volume_group_name = "vg";
  path = "/dev/vg/" <> n;
}

abbrev pub find : String → Disk → Result LvmError Volume
find n [] = err (LvmError.not_found n)
find n ((m, size) ∷ disk) = if Text.same_text m n then ok (volume n size) else find n disk

abbrev pub without : String → Disk → Disk
without n [] = []
without n ((m, size) ∷ disk) =
    let rest = without n disk in if Text.same_text m n then rest else (m, size) ∷ rest

abbrev pub volumes : Disk → List Volume
volumes [] = []
volumes ((n, size) ∷ disk) = volume n size ∷ volumes disk

abbrev pub add : LvCreateOptions String → Call Disk LvmError Volume
add o disk = elim (find o.name disk) [
  | ok old ↦ (err (LvmError.command "it exists"), disk)
  | err e ↦ (ok (volume o.name o.capacity_bytes), (o.name, o.capacity_bytes) ∷ disk)
]

abbrev pub remove : String → Call Disk LvmError ⊤
remove n disk = elim (find n disk) [ ok old ↦ (ok tt, without n disk) | err e ↦ (err e, disk) ]

abbrev pub the_group : VolumeGroup String
the_group = record { name = "vg"; capacity_bytes = 10_737_418_240 }

-- A capacity is a multiple of 512 bytes.
abbrev pub memory : Lvm Disk
memory = record {
  Name = String;
  Uuid = String;
  name_of = λ s. ok s;
  uuid_of = λ s. ok s;
  capacity_of = λ n. if n % 512 == 0 then ok n else err "it is no multiple of 512";
  show_name = λ n. n;
  show_uuid = λ u. u;
  show_capacity = decimal;
  find_vg = λ n disk.
      if Text.same_text n "vg" then (ok the_group, disk) else (err (LvmError.not_found n), disk);
  list_lvs = λ vg disk. (ok (volumes disk), disk);
  add_lv = λ vg o. add o;
  remove_lv = λ vg n. remove n;
  find_lv = λ vg n disk. (find n disk, disk);
  find_lv_by_uuid = λ u disk. (find u disk, disk);
}

find-without : (n : String) (disk : Disk) → find n (without n disk) ≡ err (LvmError.not_found n)
find-without n [] = refl
find-without n ((m, size) ∷ disk) = ground (arith, find-without n disk)

-- A volume that is found goes by the name that was looked for, which identifies it too.
find-names :
    (n : String) (disk : Disk) (lv : Volume) → find n disk ≡ ok lv → (lv.name ≡ n) × (lv.uuid ≡ n)
find-names n [] lv h = ground arith
find-names n ((m, size) ∷ disk) lv h = ground (arith, find-names n disk lv)

find-add :
    (o : LvCreateOptions String) (s t : Disk) (lv : Volume)
    → add o s ≡ (ok lv, t)
    → (lv.name ≡ o.name) × (find o.name t ≡ ok lv)
find-add o s t lv h = (ground arith, ground (arith, eq_refl o.name))

remove-gone :
    (n : String) (s t : Disk) → remove n s ≡ (ok tt, t) → find n t ≡ err (LvmError.not_found n)
remove-gone n s t h = ground (arith, find-without n s)

IsFound-of_find :
    (n : String) (vg : VolumeGroup String) (s : Disk) (lv : Volume)
    → find n s ≡ ok lv
    → IsFound memory vg lv s
IsFound-of_find n vg s lv h =
    let (named, identified) = find-names n s lv h in
    record {
      by_name = ap (λ r. (r, s)) (ap (λ k. find k s) named ∙ h);
      by_uuid = ap (λ r. (r, s)) (ap (λ k. find k s) identified ∙ h);
    }

find_lv-found :
    (n : String) (vg : VolumeGroup String) (s t : Disk) (lv : Volume)
    → ◌≡◌ {A = Result LvmError Volume × Disk} (find n s, s) (ok lv, t)
    → (lv.name ≡ n) × IsFound memory vg lv t
find_lv-found n vg s t lv h =
    let found : find n s ≡ ok lv = ap (λ p. p.0) h in
    let same : s ≡ t = ap (λ p. p.1) h in
    ((find-names n s lv found).0, rw same at (IsFound-of_find n vg s lv found))

pub memory-IsLawful : IsLawful memory
memory-IsLawful = record {
  name_of-show_name = λ n. refl;
  uuid_of-show_uuid = λ u. refl;
  add_lv-name = λ vg o s t lv h. (find-add o s t lv h).0;
  add_lv-IsFound = λ vg o s t lv h. IsFound-of_find o.name vg t lv (find-add o s t lv h).1;
  find_lv-IsFound = λ vg n s t lv h. find_lv-found n vg s t lv h;
  remove_lv-find_lv = λ vg n s t h. (n, ap (λ r. (r, t)) (remove-gone n s t h));
}
