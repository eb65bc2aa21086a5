-- ===== src/Csi/Controller/ListVolumes.antt =====
-- What `list_volumes` of crates/csi/src/controller.rs answers, and what its tokens are worth.
use rlvm.Base.{
  ℕ, suc, ◌+◌, ◌<◌, ◌≤◌, ◌≡◌, refl, ◌∙◌, ◌≢◌, String, none, some, List, map, length, take, true,
  false, ◌∷◌, ltb, ◌<>◌, if◌then◌else◌, arith, length-take, take_all, length-map,
}
use rlvm.Base.Int.{ℤ, pos, negsuc, try_usize, word_size, max_usize, add_usize_lem}
use rlvm.Base.Number.{decimal, ParseIntError, parse_error_text, parse_usize, failed}
use rlvm.Base.Text
use rlvm.Base.Number.RoundTrip.{parse_usize-decimal, decimal_nonempty}
use rlvm.Csi.Controller.Handlers.{list_volumes}
use rlvm.Csi.Controller.Parts.{Platform, RlvmController, process_volume, start_of}
use rlvm.Csi.Spec.Controller.{VolumeEntry, ListVolumesResponse}
use rlvm.Rpc.{invalid_argument, aborted, panic, ok, reply, fail, with_extension}
use rlvm.Volumed.Spec.{empty, LogicalVolume, VolumeService}

abbrev pub entry : RlvmController → LogicalVolume → VolumeEntry
entry c lv = record { volume = some (process_volume c lv); status = none }

-- A word printed in decimal is accepted as a starting token, as that number.
pub start_of-decimal :
    {S : Type 0} (n : ℕ) (s : S) → n < word_size → start_of (decimal n) s ≡ (reply n, s)
start_of-decimal n s h = rw (decimal_nonempty n, parse_usize-decimal n h)

module _ {S : Type 0} (platform : Platform) (c : RlvmController) (client : VolumeService S) where
  -- With a limit, a token that reads as a number, and a sum of both that is a word, the handler
  -- answers the first volumes that volumed lists, as many as the limit at most, whatever the token
  -- is, and gives no token for the next ones.
  pub list_volumes_limited :
      (limit start : ℕ) (token : String) (s t : S) (lvs : List LogicalVolume)
      → start_of token s ≡ (reply start, s)
      → client.get_lv_list empty s ≡ (ok (record { volumes = lvs }), t)
      → start + suc limit < word_size
      → list_volumes platform c
          (with_extension client (record { max_entries = pos (suc limit); starting_token = token }))
          s
        ≡ (reply (record { entries = take (suc limit) (map (entry c) lvs); next_token = "" }), t)
  unfolding list_volumes
  list_volumes_limited limit start token s t lvs parsed listed fits = ground (
    arith,
    add_usize_lem platform.overflow_checks start (suc limit),
    length-take (suc limit) (map (entry c) lvs),
  )

  -- Without a limit (`max_entries` 0) the handler answers all volumes that volumed lists. It gives a
  -- token, the number that it was given, as long as that is below the number of volumes.
  pub list_volumes_unlimited :
      (start : ℕ) (token : String) (s t : S) (lvs : List LogicalVolume)
      → start_of token s ≡ (reply start, s)
      → client.get_lv_list empty s ≡ (ok (record { volumes = lvs }), t)
      → start < word_size
      → length lvs < word_size
      → list_volumes platform c
          (with_extension client (record { max_entries = pos 0; starting_token = token }))
          s
        ≡ (
          reply (record {
            entries = map (entry c) lvs;
            next_token = if ltb start (length lvs) then decimal start else "";
          }),
          t,
        )
  unfolding list_volumes
  list_volumes_unlimited start token s t lvs parsed listed fits few = ground (
    arith,
    add_usize_lem platform.overflow_checks start 0,
    take_all max_usize (map (entry c) lvs),
    length-map (entry c) lvs,
  )

  -- On a host whose volumes stay the same, a caller that lists all volumes page by page never
  -- comes to an end: the first answer has the token "0" if there is a volume, and the request with
  -- that token has the same answer, token included.
  pub list_volumes_loops :
      (s : S) (lv : LogicalVolume) (lvs : List LogicalVolume)
      → client.get_lv_list empty s ≡ (ok (record { volumes = lv ∷ lvs }), s)
      → length (lv ∷ lvs) < word_size
      → let page : ListVolumesResponse = record {
        entries = map (entry c) (lv ∷ lvs);
        next_token = "0";
      } in
        (list_volumes platform c
            (with_extension client (record { max_entries = pos 0; starting_token = "" }))
            s
          ≡ (reply page, s))
        × (list_volumes platform c
              (with_extension client
                (record { max_entries = pos 0; starting_token = page.next_token }))
              s
            ≡ (reply page, s))
  unfolding decimal parse_usize
  list_volumes_loops s lv lvs listed few = (
    list_volumes_unlimited 0 "" s s (lv ∷ lvs) refl listed (omega arith) few ∙ ground arith,
    list_volumes_unlimited 0 "0" s s (lv ∷ lvs) refl listed (omega arith) few ∙ ground arith,
  )

  -- A negative limit is refused as an invalid argument, and a token that is no number as an
  -- aborted operation, before volumed is called.
  pub list_volumes_bad_arguments :
      (n : ℕ) (token : String) (limit : ℤ) (e : ParseIntError) (s : S)
      → Text.is_empty token ≡ false
      → parse_usize token ≡ failed e
      → try_usize limit ≢ none
      → (list_volumes platform c
            (with_extension client (record { max_entries = negsuc n; starting_token = token }))
            s
          ≡ (
            fail (
                invalid_argument
                  "`max_entries` must be a valid positive integer: out of range integral type conversion attempted"),
            s,
          ))
        × (list_volumes platform c
              (with_extension client (record { max_entries = limit; starting_token = token }))
              s
            ≡ (
              fail (
                  aborted
                    ("`starting_token` must be a valid positive integer: " <> parse_error_text e)),
              s,
            ))
  unfolding list_volumes
  list_volumes_bad_arguments n token limit e s given bad nonneg = (ground arith, ground arith)

  -- In a build with overflow checks, a token and a limit whose sum is no word make the handler
  -- panic, once volumed has answered.
  pub list_volumes_overflow :
      (limit start : ℕ) (token : String) (s t : S) (lvs : List LogicalVolume)
      → start_of token s ≡ (reply start, s)
      → client.get_lv_list empty s ≡ (ok (record { volumes = lvs }), t)
      → word_size ≤ start + limit
      → platform.overflow_checks ≡ true
      → list_volumes platform c
          (with_extension client (record { max_entries = pos limit; starting_token = token }))
          s
        ≡ (panic, t)
  unfolding list_volumes
  list_volumes_overflow limit start token s t lvs parsed listed over checked = ground arith
