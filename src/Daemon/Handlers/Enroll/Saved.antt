-- ===== src/Daemon/Handlers/Enroll/Saved.antt =====
-- What a finished enrollment has saved.
use chowdy.Base.{
  ℕ, ◌≡◌, refl, sym, ap, ◌∙◌, str_eq_refl, inl, inr, length, Option, none, some, Result, ok, err,
  Bool-cases, pos, ltb_ℤ, ◌≤ℤ◌, ◌==◌, ℕ-Eq, nat_eq_iff, arith, Str-Eq,
}
use chowdy.Base.Dict.{lookup}
use chowdy.Floats.{FloatOps}
use chowdy.Encoding.File.{EnrollmentFile}
use chowdy.Encoding.Disk.{DiskIo}
use chowdy.Files.{FileSystem}
use chowdy.Proto.Requests.{EnrollFinishRequest}
use chowdy.Proto.Responses.{enroll_done, error, ErrorResponse, EnrollDoneResponse}
use chowdy.Daemon.Store.{EnrollmentStore, save}
use chowdy.Daemon.Sessions.{EnrollSession, SessionManager, get}
use chowdy.Daemon.Sessions.Laws.{lookup-drop_session}
use chowdy.Daemon.Handlers.World.{World}
use chowdy.Daemon.Handlers.Enroll.{
  enroll_authorised, make_err, enrollment_of, after_save, finish_session, handle_finish,
}

error-not_done : (e : ErrorResponse) (d : EnrollDoneResponse) → ¬ (error e ≡ enroll_done d)
error-not_done e d h = cc h

module _ (fl : FloatOps) where
  -- The session whose enrollment was saved, and what is known of it.
  abbrev pub IsSaved :
      DiskIo → EnrollFinishRequest → World → EnrollSession → EnrollDoneResponse → World → Type 0
  IsSaved io r w s d w' =
      (s.min_frames ≤ℤ pos (length s.embeddings))
      × ((save io s.uid s.label (enrollment_of fl w.pipeline s) w.fs w.store).2 ≡ ok tt)
      × (w'.fs ≡ (save io s.uid s.label (enrollment_of fl w.pipeline s) w.fs w.store).1)
      × (d.label ≡ s.label)
      × (d.embeddings_saved ≡ pos (length s.embeddings))
      × (lookup r.session w'.sessions.sessions ≡ none)

  after_save-done :
      (r : EnrollFinishRequest) (s : EnrollSession) (ef : EnrollmentFile) (w : World)
      (x : EnrollmentStore × FileSystem × Result (Unit {0})) (d : EnrollDoneResponse)
      → (after_save fl r s ef w x).0 ≡ enroll_done d
      → (x.2 ≡ ok tt)
        × ((after_save fl r s ef w x).1.fs ≡ x.1)
        × (d.label ≡ s.label)
        × (d.embeddings_saved ≡ pos (length ef.embeddings))
        × (lookup r.session (after_save fl r s ef w x).1.sessions.sessions ≡ none)
  unfolding after_save make_err
  after_save-done r s ef w (st, fs, err what) d h = absurd (error-not_done _ d h)
  after_save-done r s ef w (st, fs, ok _) d h =
      let same : record {
        request_id = r.request_id;
        label = s.label;
        embeddings_saved = pos (length ef.embeddings);
        threshold = fl.to_f64 ef.threshold;
      }
          ≡ d =
        cc h in
      (
        refl,
        refl,
        sym (ap (λ (x : EnrollDoneResponse). x.label) same),
        sym (ap (λ (x : EnrollDoneResponse). x.embeddings_saved) same),
        lookup-drop_session r.session r.session w.sessions ∙ rw (str_eq_refl r.session),
      )

  finish_session-done :
      (io : DiskIo) (r : EnrollFinishRequest) (w : World)
      (x : Option EnrollSession × SessionManager) (d : EnrollDoneResponse)
      → (finish_session fl io r w x).0 ≡ enroll_done d
      → (s : EnrollSession) × (x.0 ≡ some s) × IsSaved io r w s d (finish_session fl io r w x).1
  unfolding finish_session make_err
  finish_session-done io r w (none, m) d h = absurd (error-not_done _ d h)
  finish_session-done io r w (some s, m) d h =
      let ef = enrollment_of fl w.pipeline s in
      elim (Bool-cases (ltb_ℤ (pos (length s.embeddings)) s.min_frames)) [
        | inl few ↦ absurd (error-not_done _ d (rw few at h))
        | inr enough ↦
            let (done, fs, label, saved, dropped) =
              after_save-done r s ef (record w { sessions = m })
                (save io s.uid s.label ef w.fs w.store) d (rw enough at h) in
            (
              s,
              refl,
              rw enough
                  (ground (arith, enough), done, fs, label, unfold enrollment_of in saved, dropped),
            )
      ]

  -- When an enrollment is finished with success, the peer is root, the session was there with at least
  -- its least number of embeddings, `save` of the session's user and label with all of them and the
  -- computed threshold has succeeded and given the files, and the session is gone.
  pub handle_finish-IsSaved :
      (peer_uid now : ℕ) (io : DiskIo) (r : EnrollFinishRequest) (w : World)
      (d : EnrollDoneResponse)
      → (handle_finish fl peer_uid now io r w).0 ≡ enroll_done d
      → (peer_uid ≡ 0)
        × ((s : EnrollSession) × ((get now r.session w.sessions).0 ≡ some s)
            × IsSaved io r w s d (handle_finish fl peer_uid now io r w).1)
  unfolding handle_finish enroll_authorised make_err
  handle_finish-IsSaved peer_uid now io r w d h = elim (Bool-cases (peer_uid == 0)) [
    | inr user ↦ absurd (error-not_done _ d (rw user at h))
    | inl root ↦ (
      (nat_eq_iff peer_uid 0).0 root,
      rw root (finish_session-done io r w (get now r.session w.sessions) d (rw root at h)),
    )
  ]
