-- ===== src/Domain/Enums/Support.antt =====
-- The string types of server/internal/domain/status.go and user.go about people and support. `other` holds a string that
-- is none of the constants.
use mite.Prelude.{◌≡◌, ◌↔◌, Bool, true, false, arith, Eq}
use mite.Text.{Str, str_eq, str_eq_iff}

pub data Role : Type 0 where
  user family : Role
  other : Str → Role

abbrev role_eq : Role → Role → Bool
role_eq Role.user Role.user = true
role_eq Role.family Role.family = true
role_eq (Role.other s) (Role.other t) = str_eq s t
role_eq _ _ = false

pub role_eq_iff : (a b : Role) → (role_eq a b ≡ true) ↔ (a ≡ b)
role_eq_iff (Role.other s) (Role.other t) = ground (arith, str_eq_iff s t)
role_eq_iff _ _ = ground arith

instance abbrev pub eq_role : Eq Role
eq_role = record { test = role_eq; test_iff = role_eq_iff }

pub data SupportRequestStatus : Type 0 where
  pending in_support resolved cancelled : SupportRequestStatus
  other : Str → SupportRequestStatus

abbrev support_request_status_eq : SupportRequestStatus → SupportRequestStatus → Bool
support_request_status_eq SupportRequestStatus.pending SupportRequestStatus.pending = true
support_request_status_eq SupportRequestStatus.in_support SupportRequestStatus.in_support = true
support_request_status_eq SupportRequestStatus.resolved SupportRequestStatus.resolved = true
support_request_status_eq SupportRequestStatus.cancelled SupportRequestStatus.cancelled = true
support_request_status_eq (SupportRequestStatus.other s) (SupportRequestStatus.other t) = str_eq s t
support_request_status_eq _ _ = false

pub support_request_status_eq_iff :
    (a b : SupportRequestStatus) → (support_request_status_eq a b ≡ true) ↔ (a ≡ b)
support_request_status_eq_iff (SupportRequestStatus.other s) (SupportRequestStatus.other t) =
    ground (arith, str_eq_iff s t)
support_request_status_eq_iff _ _ = ground arith

instance abbrev pub eq_support_request_status : Eq SupportRequestStatus
eq_support_request_status = record {
  test = support_request_status_eq;
  test_iff = support_request_status_eq_iff;
}

pub data SupportAcknowledgementKind : Type 0 where
  now scheduled unknown : SupportAcknowledgementKind
  other : Str → SupportAcknowledgementKind

abbrev support_acknowledgement_kind_eq :
    SupportAcknowledgementKind → SupportAcknowledgementKind → Bool
support_acknowledgement_kind_eq SupportAcknowledgementKind.now SupportAcknowledgementKind.now = true
support_acknowledgement_kind_eq SupportAcknowledgementKind.scheduled
      SupportAcknowledgementKind.scheduled =
    true
support_acknowledgement_kind_eq SupportAcknowledgementKind.unknown
      SupportAcknowledgementKind.unknown =
    true
support_acknowledgement_kind_eq (SupportAcknowledgementKind.other s)
      (SupportAcknowledgementKind.other t) =
    str_eq s t
support_acknowledgement_kind_eq _ _ = false

pub support_acknowledgement_kind_eq_iff :
    (a b : SupportAcknowledgementKind) → (support_acknowledgement_kind_eq a b ≡ true) ↔ (a ≡ b)
support_acknowledgement_kind_eq_iff (SupportAcknowledgementKind.other s)
      (SupportAcknowledgementKind.other t) =
    ground (arith, str_eq_iff s t)
support_acknowledgement_kind_eq_iff _ _ = ground arith

instance abbrev pub eq_support_acknowledgement_kind : Eq SupportAcknowledgementKind
eq_support_acknowledgement_kind = record {
  test = support_acknowledgement_kind_eq;
  test_iff = support_acknowledgement_kind_eq_iff;
}

pub data PresenceStatus : Type 0 where
  connecting online offline : PresenceStatus
  other : Str → PresenceStatus

abbrev presence_status_eq : PresenceStatus → PresenceStatus → Bool
presence_status_eq PresenceStatus.connecting PresenceStatus.connecting = true
presence_status_eq PresenceStatus.online PresenceStatus.online = true
presence_status_eq PresenceStatus.offline PresenceStatus.offline = true
presence_status_eq (PresenceStatus.other s) (PresenceStatus.other t) = str_eq s t
presence_status_eq _ _ = false

pub presence_status_eq_iff : (a b : PresenceStatus) → (presence_status_eq a b ≡ true) ↔ (a ≡ b)
presence_status_eq_iff (PresenceStatus.other s) (PresenceStatus.other t) =
    ground (arith, str_eq_iff s t)
presence_status_eq_iff _ _ = ground arith

instance abbrev pub eq_presence_status : Eq PresenceStatus
eq_presence_status = record { test = presence_status_eq; test_iff = presence_status_eq_iff }

pub data SupportSessionStatus : Type 0 where
  ringing active generating_guide reviewing_guide guide_saved ended : SupportSessionStatus
  other : Str → SupportSessionStatus

abbrev support_session_status_eq : SupportSessionStatus → SupportSessionStatus → Bool
support_session_status_eq SupportSessionStatus.ringing SupportSessionStatus.ringing = true
support_session_status_eq SupportSessionStatus.active SupportSessionStatus.active = true
support_session_status_eq SupportSessionStatus.generating_guide
      SupportSessionStatus.generating_guide =
    true
support_session_status_eq SupportSessionStatus.reviewing_guide
      SupportSessionStatus.reviewing_guide =
    true
support_session_status_eq SupportSessionStatus.guide_saved SupportSessionStatus.guide_saved = true
support_session_status_eq SupportSessionStatus.ended SupportSessionStatus.ended = true
support_session_status_eq (SupportSessionStatus.other s) (SupportSessionStatus.other t) = str_eq s t
support_session_status_eq _ _ = false

pub support_session_status_eq_iff :
    (a b : SupportSessionStatus) → (support_session_status_eq a b ≡ true) ↔ (a ≡ b)
support_session_status_eq_iff (SupportSessionStatus.other s) (SupportSessionStatus.other t) =
    ground (arith, str_eq_iff s t)
support_session_status_eq_iff _ _ = ground arith

instance abbrev pub eq_support_session_status : Eq SupportSessionStatus
eq_support_session_status = record {
  test = support_session_status_eq;
  test_iff = support_session_status_eq_iff;
}

pub data GuideDecision : Type 0 where
  create skip : GuideDecision
  other : Str → GuideDecision

abbrev guide_decision_eq : GuideDecision → GuideDecision → Bool
guide_decision_eq GuideDecision.create GuideDecision.create = true
guide_decision_eq GuideDecision.skip GuideDecision.skip = true
guide_decision_eq (GuideDecision.other s) (GuideDecision.other t) = str_eq s t
guide_decision_eq _ _ = false

pub guide_decision_eq_iff : (a b : GuideDecision) → (guide_decision_eq a b ≡ true) ↔ (a ≡ b)
guide_decision_eq_iff (GuideDecision.other s) (GuideDecision.other t) =
    ground (arith, str_eq_iff s t)
guide_decision_eq_iff _ _ = ground arith

instance abbrev pub eq_guide_decision : Eq GuideDecision
eq_guide_decision = record { test = guide_decision_eq; test_iff = guide_decision_eq_iff }

pub data SupportSessionEndReason : Type 0 where
  guide_skipped guide_saved guide_cancelled no_materials : SupportSessionEndReason
  other : Str → SupportSessionEndReason

abbrev support_session_end_reason_eq : SupportSessionEndReason → SupportSessionEndReason → Bool
support_session_end_reason_eq SupportSessionEndReason.guide_skipped
      SupportSessionEndReason.guide_skipped =
    true
support_session_end_reason_eq SupportSessionEndReason.guide_saved
      SupportSessionEndReason.guide_saved =
    true
support_session_end_reason_eq SupportSessionEndReason.guide_cancelled
      SupportSessionEndReason.guide_cancelled =
    true
support_session_end_reason_eq SupportSessionEndReason.no_materials
      SupportSessionEndReason.no_materials =
    true
support_session_end_reason_eq (SupportSessionEndReason.other s) (SupportSessionEndReason.other t) =
    str_eq s t
support_session_end_reason_eq _ _ = false

pub support_session_end_reason_eq_iff :
    (a b : SupportSessionEndReason) → (support_session_end_reason_eq a b ≡ true) ↔ (a ≡ b)
support_session_end_reason_eq_iff (SupportSessionEndReason.other s)
      (SupportSessionEndReason.other t) =
    ground (arith, str_eq_iff s t)
support_session_end_reason_eq_iff _ _ = ground arith

instance abbrev pub eq_support_session_end_reason : Eq SupportSessionEndReason
eq_support_session_end_reason = record {
  test = support_session_end_reason_eq;
  test_iff = support_session_end_reason_eq_iff;
}
