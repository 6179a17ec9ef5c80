-- ===== src/DataServer/Frames/Single/Tests.antt =====
-- The theorem on DServ_GetSingle at a concrete input.
use mmtao_old.DataServer.Frames.{Section, Layout}
use mmtao_old.DataServer.Frames.Linked.{IsPacked}
use mmtao_old.DataServer.Frames.Sets.{single_sets, when_named, name_sets, or_all}
use mmtao_old.DataServer.Frames.Single.{
  Moment, frame_number, host_word, network_int, get_single, lower_case, answer_from, fetch, send,
  send_sets, send_frame, answer_with,
}
use mmtao_old.DataServer.Frames.Single.Laws.{IsAnnounced, payload, total_length, get_single-sent}
use mmtao_old.Topbox.Sample.{test_env, ready}
use mmtao_old.Base.{◌≡◌, refl, ◌∷◌, ◌++◌, some}
use mmtao_old.Base.Text.{codes, has_prefix, contains}
use mmtao_old.Base.Int.{ℤ, pos}
use mmtao_old.Topbox.Socket.{write_loop, string_write}

-- Frames with two bytes of data.
abbrev none_of_it : Section
none_of_it = record { offset = 9; bytes = 0 }

abbrev small_layout : Layout
small_layout = record {
  header_bytes = 7;
  wfsc = record { offset = 7; bytes = 2 };
  slope = none_of_it;
  rtr = none_of_it;
  cmd = none_of_it;
  cur = none_of_it;
  pos = none_of_it;
  all = record { offset = 7; bytes = 2 };
  total_bytes = 9;
}

small_layout-IsPacked : IsPacked small_layout
small_layout-IsPacked = record {
  wfsc = refl;
  slope = refl;
  rtr = refl;
  cmd = refl;
  cur = refl;
  pos = refl;
  end = refl;
  all_offset = refl;
  all_bytes = refl;
}

abbrev zero_moment : Moment
zero_moment = record { newest = 0; memory = λ p. p }

goes_out :
    (get_single test_env small_layout
      (some (codes "WFSC"))
      0
      (some zero_moment)
      (λ i. zero_moment)
      ready).0
    ≡ pos 0
unfolding get_single answer_from answer_with send_frame send send_sets string_write single_sets
    lower_case fetch network_int when_named name_sets or_all contains has_prefix write_loop
goes_out = refl

get_single-sent_example :
    let end =
      get_single test_env small_layout
        (some (codes "WFSC"))
        0
        (some zero_moment)
        (λ i. zero_moment)
        ready in
    let sel = single_sets small_layout (lower_case (codes "WFSC")) in
    (end.1 ≡ host_word (frame_number zero_moment))
    × ((announced : ℤ) × IsAnnounced (host_word (frame_number zero_moment)) 0 sel.nbytes announced
        × (end.2.sent
            ≡ ready.sent
              ++ network_int announced
                ∷ frame_number zero_moment
                ∷ payload (λ i. zero_moment) sel.sets))
    × (total_length (payload (λ i. zero_moment) sel.sets) ≡ sel.nbytes)
get_single-sent_example =
    get_single-sent test_env small_layout (codes "WFSC") 0 zero_moment (λ i. zero_moment) ready
      small_layout-IsPacked goes_out
