-- ===== src/Hub/Sending/Windows.antt =====
-- A reply window of delivery.rs lets one message through, and opens one for the answer.
use simple_im.Base.{
  ℕ, ◌+◌, ◌<◌, ◌≡◌, ◌≢◌, refl, ap, ◌∙◌, Bool, true, false, List, [], ◌∷◌, ◌++◌, arith, any, length,
  retain, update_first,
}
use simple_im.Base.Text.{Text, text_Eq, text_eq_iff, text_eq_self}
use simple_im.Error.{Error, ok}
use simple_im.Hub.State.{ReplyWindow, QueuedMessage, HubInner, Notice}
use simple_im.Hub.Queue.{deposit, take_notify}
use simple_im.Hub.Governance.{summon}
use simple_im.Hub.Sending.{
  accepted, Readings, Sending, message_of, open_window, admits, use_window, deliver_by_window,
  send_without_grant,
}

reply_windows-deposit :
    (h : HubInner) (name : Text) (m : QueuedMessage)
    → (deposit h name m).reply_windows ≡ h.reply_windows
unfolding deposit
reply_windows-deposit h name m = ground arith

reply_ttl-deposit :
    (h : HubInner) (name : Text) (m : QueuedMessage) → (deposit h name m).reply_ttl ≡ h.reply_ttl
unfolding deposit
reply_ttl-deposit h name m = ground arith

reply_windows-summon :
    (h : HubInner) (name : Text) → (summon h name).1.reply_windows ≡ h.reply_windows
unfolding summon take_notify
reply_windows-summon h name = ground arith

length-retain-update_first :
    (p : ReplyWindow → Bool) (f : ReplyWindow → ReplyWindow)
    → ((w : ReplyWindow) → p (f w) ≡ false)
    → (ws : List ReplyWindow) → any p ws ≡ true
    → length (retain p (update_first p f ws)) + 1 ≡ length (retain p ws)
unfolding retain update_first any
length-retain-update_first p f spent [] e = absurd (ground arith)
length-retain-update_first p f spent (w ∷ ws) e =
    ground (arith, spent w, length-retain-update_first p f spent ws)

retain-snoc :
    (p : ReplyWindow → Bool) (ws : List ReplyWindow) (w : ReplyWindow)
    → p w ≡ false
    → retain p (ws ++ w ∷ []) ≡ retain p ws
unfolding retain
retain-snoc p [] w e = ground arith
retain-snoc p (v ∷ ws) w e = ground (arith, retain-snoc p ws w e)

any-snoc :
    (p : ReplyWindow → Bool) (ws : List ReplyWindow) (w : ReplyWindow)
    → p w ≡ true
    → any p (ws ++ w ∷ []) ≡ true
unfolding any
any-snoc p [] w e = ground arith
any-snoc p (v ∷ ws) w e = ground (arith, any-snoc p ws w e)

-- How many messages the windows let through from one name to another.
abbrev pub admitted : ℕ → Text → Text → List ReplyWindow → ℕ
admitted now from_name to_name ws = length (retain (admits now from_name to_name) ws)

module _ (render : Notice → List ℕ) (h : HubInner) (at : Readings) (s : Sending) where
  abbrev reply : ReplyWindow
  reply = record {
    recipient = s.to_name;
    sender = s.from_name;
    expires = at.replied_at + h.reply_ttl;
    used = false;
  }

  windows_after :
      (deliver_by_window h at s).1.reply_windows
      ≡ update_first (admits at.now s.from_name s.to_name) use_window h.reply_windows ++ reply ∷ []
  unfolding deliver_by_window
  windows_after =
      let used = record h {
        reply_windows =
            update_first (admits at.now s.from_name s.to_name) use_window h.reply_windows;
      } in
      let told = deposit used s.to_name (message_of s) in
      reply_windows-summon (open_window told at.replied_at s.to_name s.from_name) s.to_name
      ∙ rw
          (
            reply_windows-deposit used s.to_name (message_of s),
            reply_ttl-deposit used s.to_name (message_of s),
          )
          refl

  spent : (w : ReplyWindow) → admits at.now s.from_name s.to_name (use_window w) ≡ false
  spent w = ground arith

  back : s.from_name ≢ s.to_name → admits at.now s.from_name s.to_name reply ≡ false
  back other = ground (arith, text_eq_iff s.from_name s.to_name, text_eq_iff s.to_name s.from_name)

  forth :
      (later : ℕ)
      → later < at.replied_at + h.reply_ttl
      → admits later s.to_name s.from_name reply ≡ true
  forth later l = ground (arith, text_eq_self s.from_name, text_eq_self s.to_name)

  -- Without a grant, an open window lets the message through, whatever the check answered. It is
  -- used up by it: one message less is let through in that direction. Until the new window runs
  -- out, the recipient may answer.
  pub reply_once :
      (e : Error)
      → s.from_name ≢ s.to_name
      → any (admits at.now s.from_name s.to_name) h.reply_windows ≡ true
      → ((send_without_grant render h at s e).0 ≡ ok accepted)
        × (admitted at.now s.from_name s.to_name
                (send_without_grant render h at s e).1.reply_windows
              + 1
            ≡ admitted at.now s.from_name s.to_name h.reply_windows)
        × ((later : ℕ)
            → later < at.replied_at + h.reply_ttl
            → any
                (admits later s.to_name s.from_name)
                (send_without_grant render h at s e).1.reply_windows
              ≡ true)
  unfolding send_without_grant
  reply_once e other found =
      let p = admits at.now s.from_name s.to_name in
      let ws = update_first p use_window h.reply_windows in
      rw (send_without_grant, found)
        (
          unfold deliver_by_window in refl,
          ap (λ v. length (retain p v) + 1) windows_after
              ∙ ap (λ v. length v + 1) (retain-snoc p ws reply (back other))
              ∙ length-retain-update_first p use_window spent h.reply_windows found,
          λ later l.
              ap (any (admits later s.to_name s.from_name)) windows_after
              ∙ any-snoc (admits later s.to_name s.from_name) ws reply (forth later l),
        )
