-- ===== src/Upload/Runs.antt =====
-- An upload of one sealed slot that ends well.
use oracle_free_arch_vps.Base.{Result, Text, err, insert, lookup, ok, true, ℕ, ◌+◌}
use oracle_free_arch_vps.Profile.{assert_budget}
use oracle_free_arch_vps.Json.{decimal, json_bytes, pad_digits, quote, stringify, utf8_length}
use oracle_free_arch_vps.Contract.Fields.{
  capture, has_control_character, hash, integer, matches, object, text, uuid,
}
use oracle_free_arch_vps.Contract.Names.{
  consume, consume_kind, exec_name, number_onto, object_name, parse_object_name,
}
use oracle_free_arch_vps.Contract.Roles.{read_role, utc}
use oracle_free_arch_vps.Contract.Refs.{ObjectRef, validate_object_ref}
use oracle_free_arch_vps.Contract.Slots.{is_clean_path, validate_put_intent, validate_sealed_slot}
use oracle_free_arch_vps.Upload.Records.{check_identity, encoded_bytes, key_for, match}
use oracle_free_arch_vps.Upload.Operations.{
  apply_begin, apply_candidate, apply_eof, apply_intent, apply_reclaimed, apply_selected,
  apply_verify, bound, empty_journal, is_complete, items_of, sort_items,
}
use oracle_free_arch_vps.Upload.Journal.{
  append, apply, apply_episode, apply_transfer, replay, replay_entry,
}
use oracle_free_arch_vps.Contract.Leases.{transfer_window_ms}
use oracle_free_arch_vps.Actions.{continue}
use oracle_free_arch_vps.Upload.Session.{
  Context, Session, append_record, begin_transfer, find_window, open_window, start_session,
}
use oracle_free_arch_vps.Upload.Reconcile.{
  read_page, reconcile, reconcile_item, search_names, search_pages,
}
use oracle_free_arch_vps.Upload.Sealed.{
  answered, attempt_upload, begin_iteration, bind_name, check_deadline, find_name, find_or_put,
  new_intent, notify_verified, open_episode, put_object, put_once, resume_episode,
  select_and_release, upload_from, upload_sealed_object, wait_for_retry,
}
use oracle_free_arch_vps.Upload.Tests.{
  any_instant, first_intent, first_name, first_slot, producer, stored,
}

all_steps : Unit {0}
unfolding replay replay_entry encoded_bytes apply apply_begin apply_intent apply_candidate
    apply_selected apply_verify apply_reclaimed apply_eof apply_transfer apply_episode append
    check_identity bound match object_name capture uuid text integer matches utf8_length
    parse_object_name exec_name consume consume_kind number_onto pad_digits has_control_character
    validate_put_intent object validate_sealed_slot is_clean_path hash utc read_role assert_budget
    validate_object_ref json_bytes stringify quote decimal key_for lookup insert items_of sort_items
    is_complete transfer_window_ms continue append_record open_window find_window begin_transfer
    read_page search_pages search_names reconcile_item reconcile find_name new_intent put_once
    answered put_object find_or_put bind_name notify_verified select_and_release attempt_upload
    open_episode wait_for_retry check_deadline begin_iteration upload_from resume_episode
    upload_sealed_object
all_steps = tt

-- A world is its clock, in milliseconds.
abbrev working : Context ℕ
working = record {
  persist = λ e w. (true, w);
  spool_read = λ s w. (ok tt, w);
  spool_reclaim = λ s w. (ok tt, w);
  put_file_once = λ i w. (ok (record stored { file_name = i.name }), w);
  verify_exact_readback = λ r w. (ok tt, w);
  versions_page = λ name c w. (err "unavailable", w);
  throw_if_aborted = λ w. (ok tt, w);
  pace = λ n w. (ok tt, w + n);
  sleep = λ n w. (ok tt, w + n);
  now = λ w. (ok w, w);
  monotonic_now = λ w. (ok w, w);
  new_put_id = λ w. (ok first_name.put_id, w);
  is_retryable = λ e. true;
  on_verified = λ ordinal offset r w. (ok tt, w);
  on_retry_episode = λ k n at w. (ok tt, w);
  on_transfer_episode = λ x w. (ok tt, w);
  on_transfer_complete = λ k w. (ok tt, w);
}

abbrev at_four : ℕ → Text
at_four n = first_intent.created_at_utc

abbrev epoch : Text → ℕ
epoch t = 0

abbrev upload_on : Context ℕ → Result ObjectRef × Session ℕ
upload_on context =
    upload_sealed_object any_instant epoch at_four context producer first_slot 0 0
      (start_session 0 (empty_journal first_name.capture_id))
