-- ===== src/Tests/Separate.antt =====
-- The volumes in memory are separate: the laws of the abstract view hold of them.
use rlvm.Base.{◌≡◌, ◌≢◌, refl, ◌∙◌, ap, String, [], ◌∷◌, arith}
use rlvm.Base.Text
use rlvm.Lvm.{LvmError, LvCreateOptions}
use rlvm.Lvm.Memory.{Disk, Volume, find, without, add, remove}
use rlvm.Rpc.{ok, err}
use rlvm.System.Store.{IsSeparate, SameAt}
use rlvm.Tests.Fixtures.{managed}
use text.Mathlib.TextEquality.{eq_iff}

find-without_other :
    (n gone : String) (disk : Disk) → n ≢ gone → find n (without gone disk) ≡ find n disk
find-without_other n gone [] h = refl
find-without_other n gone ((m, size) ∷ disk) h =
    ground (arith, eq_iff m gone, eq_iff m n, find-without_other n gone disk h)

same_find : (n : String) (s t : Disk) → find n t ≡ find n s → SameAt managed n s t
same_find n s t h r found = ap (λ x. (x, t)) (h ∙ ap (λ p. p.0) found)

add-other :
    (o : LvCreateOptions String) (s t : Disk) (lv : Volume) (n : String)
    → add o s ≡ (ok lv, t)
    → n ≢ o.name
    → find n t ≡ find n s
add-other o s t lv n h other = ground (arith, eq_iff o.name n)

add-taken :
    (o : LvCreateOptions String) (s t : Disk) (old lv : Volume)
    → find o.name s ≡ ok old
    → add o s ≢ (ok lv, t)
add-taken o s t old lv taken added = ground arith

add-failed : (o : LvCreateOptions String) (s t : Disk) (e : LvmError) → add o s ≡ (err e, t) → t ≡ s
add-failed o s t e h = ground arith

remove-other :
    (gone : String) (s t : Disk) (n : String)
    → remove gone s ≡ (ok tt, t)
    → n ≢ gone
    → find n t ≡ find n s
remove-other gone s t n h other = ground (arith, find-without_other n gone s)

remove-failed : (gone : String) (s t : Disk) (e : LvmError) → remove gone s ≡ (err e, t) → t ≡ s
remove-failed gone s t e h = ground arith

pub memory-IsSeparate : IsSeparate managed
memory-IsSeparate = record {
  same = Text.same_text;
  same_iff = eq_iff;
  add_lv-other = λ o s t lv h n other. same_find n s t (add-other o s t lv n h other);
  add_lv-failed = λ o s t e h n. same_find n s t (ap (find n) (add-failed o s t e h));
  add_lv-taken = λ o s t old lv taken. add-taken o s t old lv (ap (λ p. p.0) taken);
  remove_lv-other = λ gone s t h n other. same_find n s t (remove-other gone s t n h other);
  remove_lv-failed = λ gone s t e h n. same_find n s t (ap (find n) (remove-failed gone s t e h));
  mkfs_keeps = λ path s n r h. h;
  list_lvs_state = λ s. refl;
  find_lv_by_uuid_state = λ u s. refl;
}
