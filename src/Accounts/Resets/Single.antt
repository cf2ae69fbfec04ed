-- ===== src/Accounts/Resets/Single.antt =====
-- app/services/auth_service.py: a reset token serves once, and its password is then the user's.
