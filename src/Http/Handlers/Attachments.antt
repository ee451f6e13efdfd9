-- ===== src/Http/Handlers/Attachments.antt =====
-- http.rs: the handlers of attachments.
use simple_im.Base.{
  ℕ, Option, none, some, List, [], ◌∷◌, ◌++◌, if◌then◌else◌, unwrap_or, option_map,
}
use simple_im.Base.Text.{Text, codes}
use simple_im.Error.{bad_request}
use simple_im.Hub.State.{HubInner}
use simple_im.Hub.Attachments.{AttachmentMeta, attach, fetch_attachment}
use simple_im.Http.Respond.{
  number, string, end, field, Response, file, respond, HeaderMap, text_of, bearer_token,
  err_response, auth_failed_response, trim, first_part,
}
use simple_im.Http.Filename.{sanitize_filename}
use simple_im.Http.Handlers.{Call, Served, with_bearer, respond_with}
use simple_im.Http.Handlers.People.{Settings}

-- The query of `POST /attachments`, and the bytes of its body.
pub record Upload : Type 0 where
  pub to : Text
  pub filename : Option Text
  pub note : Option Text
  pub body : List ℕ

abbrev or_octets : Option Text → Text
or_octets none = codes "application/octet-stream"
or_octets (some []) = codes "application/octet-stream"
or_octets (some (c ∷ mime)) = c ∷ mime

abbrev mime_of : HeaderMap → Text
mime_of headers =
    or_octets
      (option_map (λ s. trim (first_part b';' s)) (text_of (headers (codes "Content-Type"))))

abbrev meta_response : AttachmentMeta → Response
meta_response m = respond 201 (
    field (codes "attachment_id") (string m.id) (
      field (codes "filename") (string m.filename)
        (field (codes "mime") (string m.mime) (field (codes "size") (number m.size) end))))

abbrev upload : Call → Settings → HubInner → HeaderMap → Text → Upload → List ℕ → Served
upload c s h headers token u [] = (err_response bad_request, h, [])
upload c s h headers token u (b ∷ bytes) = respond_with meta_response (
    attach c.env.render c.store h c.env.now c.env.now_secs c.bytes token (record {
      to_name = u.to;
      filename = sanitize_filename (unwrap_or u.filename (codes "file"));
      mime = mime_of headers;
      bytes = b ∷ bytes;
      note = u.note;
      ttl = s.attachment_ttl;
    }))

unfoldable pub handle_attach_upload : Call → Settings → HubInner → HeaderMap → Upload → Served
unfolding attach sanitize_filename bearer_token auth_failed_response err_response trim first_part
handle_attach_upload c s h headers u =
    with_bearer h headers λ token. upload c s h headers token u u.body

-- A header is set only when its value is one.
abbrev header_value : Call → Text → Option Text
header_value c t = if c.is_header_value t then some t else none

abbrev disposition : Text → Text
disposition filename = codes "attachment; filename=\"" ++ sanitize_filename filename ++ codes "\""

unfoldable pub handle_attach_download : Call → HubInner → HeaderMap → Text → Served
unfolding fetch_attachment sanitize_filename bearer_token auth_failed_response err_response
handle_attach_download c h headers id = with_bearer h headers λ token.
    let (answer, effects) = fetch_attachment c.store h c.env.now_secs token id in
    respond_with
      (λ a. record {
        status = 200;
        body = file a.0 (header_value c a.2) (header_value c (disposition a.1));
      })
      (answer, h, effects)
