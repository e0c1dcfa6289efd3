-- ===== src/Voices/Card.antt =====
-- The card of a voice, web/src/modules/voices/components/voice-card.tsx: its two dialogs, which
-- edit and delete the voice.
use go_grpc_microservices.Prelude.{
  ◌≡◌, ◌↔◌, String, Bool, true, false, not, ◌||◌, Option, some, List, ◌∷◌, if◌then◌else◌, arith,
  inl, inr, refl, ap, sym, ◌∙◌,
}
use go_grpc_microservices.Async.{resolved, rejected, is_resolved, Settled-cases}
use go_grpc_microservices.Text.{is_empty, absent, trim}
use go_grpc_microservices.Toasts.{Toast}
use go_grpc_microservices.Voices.Categories.{
  VoiceCategory, general, EditCategory, edit_category, map_edit_category,
}
use go_grpc_microservices.Voices.Mutations.{
  UpdateVoiceInput, VoiceRequest, update_voice, delete_voice, VoiceReply, voice, Client, text_or,
  call, invalidate, forget, update_request, update, delete,
}

-- What the card reads of its `voice`.
pub record VoiceItem : Type 0 where
  pub id : String
  pub name : String
  pub description : Option String
  pub language : String
  pub category : VoiceCategory

-- The card's states, with the client behind its mutations and the messages shown, newest first.
pub record VoiceCard : Type 0 where
  pub is_edit_open : Bool
  pub is_delete_open : Bool
  pub name : String
  pub description : String
  pub language : String
  pub category : EditCategory
  pub client : Client
  pub toasts : List Toast

-- `openEditDialog`
open_edit_dialog : VoiceItem → VoiceCard → VoiceCard
open_edit_dialog v s = record s {
  name = v.name;
  description = text_or v.description "";
  language = v.language;
  category = edit_category v.category;
  is_edit_open = true;
}

module _ (service : VoiceRequest → VoiceReply) (token : Option String) (v : VoiceItem) where
  abbrev pub edited : VoiceCard → UpdateVoiceInput
  edited s = record {
    id = v.id;
    name = s.name;
    description = some s.description;
    language = s.language;
    category = s.category;
  }

  -- `handleUpdateVoice`
  unfoldable pub handle_update_voice : VoiceCard → VoiceCard
  unfolding update
  handle_update_voice s =
      let r = update service token (edited s) s.client in
      elim r.0 [
        | resolved _ ↦ record s {
          client = r.1;
          toasts = Toast.success "Voice updated" ∷ s.toasts;
          is_edit_open = false;
        }
        | rejected message ↦ record s { client = r.1; toasts = Toast.error message ∷ s.toasts }
      ]

  -- `handleDeleteVoice`
  handle_delete_voice : VoiceCard → VoiceCard
  unfolding delete
  handle_delete_voice s =
      let r = delete service token v.id s.client in
      elim r.0 [
        | resolved _ ↦ record s {
          client = r.1;
          toasts = Toast.success "Voice deleted" ∷ s.toasts;
          is_delete_open = false;
        }
        | rejected message ↦ record s { client = r.1; toasts = Toast.error message ∷ s.toasts }
      ]

  abbrev returns_voice : VoiceReply → Bool
  returns_voice (voice (some w)) = true
  returns_voice _ = false

  -- The request that leaves the voice as it is, but that an unspecified category becomes general.
  abbrev pub unchanged : VoiceRequest
  unchanged =
      update_voice v.id v.name (text_or v.description "")
        (elim v.category [ VoiceCategory.unspecified ↦ general | c ↦ c ]) v.language

  abbrev is_refused : UpdateVoiceInput → Bool
  is_refused i =
      absent token || is_empty (trim i.id) || is_empty (trim i.name) || is_empty (trim i.language)

  update_sent :
      (i : UpdateVoiceInput) (c : Client)
      → (update service token i c).1.sent
        ≡ (if is_refused i then c.sent else update_request service i ∷ c.sent)
  unfolding update call invalidate
  update_sent i c = ground arith

  update_resolves :
      (i : UpdateVoiceInput) (c : Client)
      → (is_resolved (update service token i c).0 ≡ true)
        ↔ ((is_refused i ≡ false) × (returns_voice (service (update_request service i)) ≡ true))
  unfolding update call invalidate
  update_resolves i c = (λ h. ground arith, λ h. ground arith)

  update_invalidated :
      (i : UpdateVoiceInput) (c : Client)
      → (update service token i c).1.invalidated
        ≡ (c.invalidated || is_resolved (update service token i c).0)
  unfolding update call invalidate
  update_invalidated i c = ground arith

  update_request-edited :
      (s : VoiceCard) → update_request service (edited (open_edit_dialog v s)) ≡ unchanged
  unfolding update_request open_edit_dialog edit_category map_edit_category
  update_request-edited s = ground arith

  -- What saving does once the mutation has settled.
  handled :
      (s : VoiceCard)
      → s.is_edit_open ≡ true
      → let r = update service token (edited s) s.client in
        let t = handle_update_voice s in
        (t.is_edit_open ≡ not (is_resolved r.0))
        × (t.client ≡ r.1)
        × ((message : String) × (t.toasts
              ≡ (if t.is_edit_open then Toast.error message else Toast.success message) ∷ s.toasts))
  unfolding handle_update_voice
  handled s shown = elim (Settled-cases (update service token (edited s) s.client).0) [
    | inl (_, e) ↦ (ground arith, ground arith, ("Voice updated", ground arith))
    | inr (m, e) ↦ (ground arith, ground arith, (m, ground arith))
  ]

  -- Opening the edit dialog and saving at once asks the service for what the voice is, but that
  -- an unspecified category becomes general: nothing is sent if the user has no token or the id,
  -- the name or the language is blank, else exactly that request is. The dialog closes exactly
  -- if it is sent and the service returns a voice, and then the list of voices is invalidated;
  -- and one message is shown, an error exactly if the dialog stays open.
  edit_unchanged :
      (s : VoiceCard)
      → let t = handle_update_voice (open_edit_dialog v s) in
        let refused =
          absent token
          || is_empty (trim v.id)
          || is_empty (trim v.name)
          || is_empty (trim v.language) in
        (t.client.sent ≡ (if refused then s.client.sent else unchanged ∷ s.client.sent))
        × ((t.is_edit_open ≡ false)
            ↔ ((refused ≡ false) × (returns_voice (service unchanged) ≡ true)))
        × (t.client.invalidated ≡ (s.client.invalidated || not t.is_edit_open))
        × ((message : String) × (t.toasts
              ≡ (if t.is_edit_open then Toast.error message else Toast.success message) ∷ s.toasts))
  unfolding open_edit_dialog
  edit_unchanged s =
      let shown = open_edit_dialog v s in
      let i = edited shown in
      let (closes, same, message) = handled shown refl in
      let request = update_request-edited s in
      let sent = update_sent i s.client in
      let (resolves, resolved_if) = update_resolves i s.client in
      let answered = ap (λ q. returns_voice (service q)) request in
      let invalidated = update_invalidated i s.client in
      (
        ap (λ c. c.sent) same
            ∙ sent
            ∙ ap (λ q. if is_refused i then s.client.sent else q ∷ s.client.sent) request,
        (
          λ h.
              let (allowed, returns) = resolves (ground arith) in (allowed, sym answered ∙ returns),
          λ h. let done = resolved_if (h.0, answered ∙ h.1) in ground arith,
        ),
        ground arith,
        message,
      )

  -- Deleting a voice from its card: if the dialog was open, it closes exactly if the user has a
  -- token, the id is not blank and the service says that the voice is gone, and then the list of
  -- voices is invalidated; and whether or not it does, the browser forgets the provider key of
  -- the voice, unless its id is empty, and one message is shown, an error exactly if the dialog
  -- stays open.
  handle_delete_voice_lem :
      (s : VoiceCard)
      → s.is_delete_open ≡ true
      → let t = handle_delete_voice s in
        ((t.is_delete_open ≡ false) ↔ (
          (absent token ≡ false)
          × (is_empty (trim v.id) ≡ false)
          × (service (delete_voice v.id) ≡ VoiceReply.success true)))
        × (t.client.invalidated ≡ (s.client.invalidated || not t.is_delete_open))
        × (t.client.forgotten
            ≡ (if is_empty v.id then s.client.forgotten else v.id ∷ s.client.forgotten))
        × ((message : String) × (t.toasts
              ≡ (if t.is_delete_open then Toast.error message else Toast.success message)
                ∷ s.toasts))
  unfolding handle_delete_voice delete call invalidate forget
  handle_delete_voice_lem s shown = (
    (λ h. ground arith, λ h. ground arith),
    ground arith,
    ground arith,
    elim (Settled-cases (delete service token v.id s.client).0) [
      | inl (_, e) ↦ ("Voice deleted", ground arith)
      | inr (m, e) ↦ (m, ground arith)
    ],
  )
